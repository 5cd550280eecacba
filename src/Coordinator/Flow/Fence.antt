-- ===== src/Coordinator/Flow/Fence.antt =====
-- What the fence of a flow promises: the end of an old dialog does not release a newer hold.
use my_mtlwallet_bot.Prelude.{
  ℕ, ◌+◌, ◌≤◌, ◌<◌, List, none, subst, Option-cases, inl, inr, ◌≡◌, refl, ap, ◌∙◌, Bool, true,
  false, Option, some, arith, ==_refl, ◌==◌, if◌then◌else◌,
}
use my_mtlwallet_bot.Redis.{Redis, hold_generation_sequence, next_number}
use my_mtlwallet_bot.Store.Scripts.{holds_number}
use my_mtlwallet_bot.Store.Mailbox.{Mailbox, mailbox, touched, released}
use my_mtlwallet_bot.Store.Methods
use my_mtlwallet_bot.Store.Methods.{StoreConfig, eval}
use my_mtlwallet_bot.Store.Refines.{touch_hold-touched, release_hold_generation-released}
use my_mtlwallet_bot.Store.Due.{Schedule}
use my_mtlwallet_bot.Store.History.{Event, history}
use my_mtlwallet_bot.Store.History.Sequence.{
  level, next_number-above, touch_hold-sequence, history-level,
}
use my_mtlwallet_bot.Store.History.Issued.{IsDrawn, history-above, history-below}
use my_mtlwallet_bot.Coordinator.Flow.{touch, release_flow_generation, complete_flow}

module _ (r : Redis) (config : StoreConfig) (user : ℕ) where
  abbrev box : r.Db → Mailbox
  box db = mailbox (r.view db) user

  released_if :
      (b : Bool) (now : ℕ) (m : Mailbox)
      → let x : Bool × Mailbox = if b then (true, released now m) else (false, m) in
        x.1 ≡ (if b then released now m else m)
  released_if true now m = refl
  released_if false now m = refl

  if_holds :
      (o : Option ℕ) (wanted : ℕ) (x y : Mailbox) {held : ℕ} {b : Bool}
      → o ≡ some held
      → (held == wanted) ≡ b
      → (if holds_number o wanted then x else y) ≡ (if b then x else y)
  if_holds o wanted x y e d = rw (e, d) refl

  -- A hold whose generation is newer is not the expected one.
  if_above :
      (m x : Mailbox) (old : ℕ)
      → IsDrawn (λ g. old < g) m
      → (if holds_number m.generation old then x else m) ≡ m
  if_above m x old above = elim (Option-cases m.generation) [
    | inl empty ↦ rw empty refl
    | inr (g, e) ↦
        let newer = above g e in
        let differs : (g == old) ≡ false = ground arith in rw (e, differs) refl
  ]

  -- The end of a flow that captured a generation releases the hold exactly if the hold still has it.
  pub complete_flow-released :
      (generation now : ℕ) (db : r.Db)
      → box (complete_flow r config (some (user, some generation)) user now db)
        ≡ (if holds_number (box db).generation generation then released now (box db) else box db)
  unfolding complete_flow release_flow_generation Methods.release_hold_generation_if_unchanged
      Methods.atomically
  complete_flow-released generation now db = rw (==_refl user) (
      (release_hold_generation-released r user db generation now).own
      ∙ released_if (holds_number (box db).generation generation) now (box db))

  -- A dialog that captured a generation of a hold, at any point of a history that began with no
  -- generation for the user, releases nothing once another flow has touched the hold: after any
  -- events before that touch and any after it, its end leaves the mailbox as it is. The end of
  -- the touching flow, directly after its touch, releases the hold.
  pub complete_flow-touch :
      (schedule : Schedule r) (before between after : List Event) (old now later : ℕ) (db₀ : r.Db)
      → (box db₀).generation ≡ none
      → let db = history r schedule config before db₀ in
        (box db).generation ≡ some old
        → let ((until, context), touched_db) =
            touch r config user now (history r schedule config between db) in
          let db' = history r schedule config after touched_db in
          (box (complete_flow r config (some (user, some old)) user later db') ≡ box db')
          × (box (complete_flow r config context user later touched_db)
              ≡ released later (box touched_db))
  unfolding touch Methods.touch_with_generation Methods.atomically touched
  complete_flow-touch schedule before between after old now later db₀ fresh captured =
      let db = history r schedule config before db₀ in
      let db₁ = history r schedule config between db in
      let until = now + config.hold_seconds in
      let i = touch_hold-touched r user db₁ until config.hold_seconds in
      let db₂ = (Methods.touch_with_generation r config eval user now db₁).1 in
      let next = next_number ((r.view db₁).strings hold_generation_sequence) in
      let given : (box db₂).generation ≡ some next = ap (λ m. m.generation) i.own in
      let issued : (touch r config user now db₁).0.1 ≡ some (user, some next) =
        ap (λ (x : ℕ × ℕ). some (user, some x.1)) i.reply in
      let below = history-below r schedule config user before db₀ (λ g h. cc) old captured in
      let rises = history-level r schedule config between db in
      let newer : old < next =
        omega (arith, next_number-above ((r.view db₁).strings hold_generation_sequence)) in
      let drawn = touch_hold-sequence r user until config.hold_seconds db₁ in
      let reached : old ≤ level r db₂ = rw drawn (omega arith) in
      let above =
        history-above r schedule config old user after db₂ reached
          (λ g h. let same : next ≡ g = cc (given, h) in subst (λ x. old < x) same newer) in
      (
        complete_flow-released old later (history r schedule config after db₂)
            ∙ if_above (box (history r schedule config after db₂)) _ old above,
        ap (λ g. box (complete_flow r config g user later db₂)) issued
            ∙ complete_flow-released next later db₂
            ∙ if_holds _ _ _ _ given (==_refl next),
      )
