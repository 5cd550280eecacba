-- ===== src/Worker/Slots.antt =====
-- The worker never has more flushes running than its batch size.
use my_mtlwallet_bot.Prelude.{
  ℕ, ◌+◌, ◌-◌, ◌≤◌, ◌≡◌, refl, ◌∙◌, false, List, [], ◌∷◌, ◌++◌, arith, leb, ◌==◌, is_some, length,
  length-append, Bool-cases, inl, inr,
}
use my_mtlwallet_bot.Prelude.Dict.{Dict, get, put, del}
use my_mtlwallet_bot.Redis.{Redis}
use my_mtlwallet_bot.Store.Methods.{Server}
use my_mtlwallet_bot.Store.Due.{Schedule, due_users}
use my_mtlwallet_bot.Worker.{
  Worker, start, start_flushes, is_own, flush_done, flushes_done, poll_once,
}

length-put : (k v : ℕ) (d : Dict ℕ) → is_some (get k d) ≡ false → length (put k v d) ≡ length d + 1
unfolding put
length-put k v [] h = omega arith
length-put k v ((key, value) ∷ d) h = elim (Bool-cases (key == k)) [
  | inl e ↦ absurd (ground arith)
  | inr e ↦ rw (e, put) (let ih = length-put k v d (rw e at h) in omega arith)
]

length-del : (k : ℕ) (d : Dict ℕ) → length (del k d) ≤ length d
unfolding del
length-del k [] = omega arith
length-del k ((key, value) ∷ d) = ground (arith, length-del k d)

-- The loop starts no more than the slots allow, and each start takes one entry.
pub length-start_flushes :
    (slots : ℕ) (users started : List ℕ) (w : Worker)
    → length started ≤ slots
    → let out = start_flushes slots users started w in
      (length out.0 ≤ slots)
      × (length out.1.active_flushes + length started ≡ length w.active_flushes + length out.0)
      × (out.1.batch_size ≡ w.batch_size)
unfolding start_flushes start
length-start_flushes slots [] started w h = (h, refl, refl)
length-start_flushes slots (u ∷ us) started w h =
    elim (Bool-cases (is_some (get u w.active_flushes))) [
      | inl on ↦ rw on (length-start_flushes slots us started w h)
      | inr off ↦ rw off (elim (Bool-cases (leb slots (length started))) [
        | inl full ↦ rw full (h, refl, refl)
        | inr room ↦
            let ih =
              length-start_flushes slots us (started ++ u ∷ []) (start u w)
                (ground (arith, length-append started (u ∷ []))) in
            rw room (
              ih.0,
              omega (
                arith,
                ih.1,
                length-put u w.next_task w.active_flushes off,
                length-append started (u ∷ []),
              ),
              ih.2,
            )
      ])
    ]

-- The end of a task takes an entry out, if any.
flush_done-less :
    (user task : ℕ) (w : Worker)
    → (length (flush_done user task w).active_flushes ≤ length w.active_flushes)
      × ((flush_done user task w).batch_size ≡ w.batch_size)
unfolding flush_done
flush_done-less user task w = elim (Bool-cases (is_own (get user w.active_flushes) task)) [
  | inl own ↦ rw own (length-del user w.active_flushes, refl)
  | inr other ↦ rw other (omega arith, refl)
]

pub flushes_done-less :
    (ended : List (ℕ × ℕ)) (w : Worker)
    → (length (flushes_done ended w).active_flushes ≤ length w.active_flushes)
      × ((flushes_done ended w).batch_size ≡ w.batch_size)
unfolding flushes_done
flushes_done-less [] w = (omega arith, refl)
flushes_done-less ((user, task) ∷ ended) w =
    let one = flush_done-less user task w in
    let rest = flushes_done-less ended (flush_done user task w) in
    (omega (arith, one.0, rest.0), rest.1 ∙ one.1)

-- What happens to a worker over time: polls, on a server that others may use too, and ends of the
-- tasks, whether or not they are still the ones in the table.
pub data Event (S : Type 0) : Type 0 where
  polled : Server S → (now : ℕ) → List (ℕ × ℕ) → (S → S) → Event S
  done : (user task : ℕ) → Event S

module _ (r : Redis) (schedule : Schedule r) where
  pub happen : Event r.Db → Worker × r.Db → Worker × r.Db
  happen (polled server now ended others) (w, db) =
      let (out, db') = poll_once r schedule server now ended w (others db) in (out.1, db')
  happen (done user task) (w, db) = (flush_done user task w, db)

  pub history : List (Event r.Db) → Worker × r.Db → Worker × r.Db
  history [] s = s
  history (e ∷ es) s = history es (happen e s)

  -- A worker within its batch.
  abbrev pub IsWithin : Worker → Type 0
  IsWithin w = length w.active_flushes ≤ w.batch_size

  happen-IsWithin :
      (e : Event r.Db) (s : Worker × r.Db)
      → IsWithin s.0
      → IsWithin (happen e s).0 × ((happen e s).0.batch_size ≡ s.0.batch_size)
  unfolding happen poll_once
  happen-IsWithin (polled server now ended others) (w, db) h =
      let users =
        (due_users r schedule now (w.batch_size + length w.active_flushes) server (others db)).0 in
      let w' = flushes_done ended w in
      let d = flushes_done-less ended w in
      let l =
        length-start_flushes (w'.batch_size - length w'.active_flushes) users [] w' (omega arith) in
      (omega (arith, l.0, l.1, l.2, d.0, d.1), l.2 ∙ d.1)
  happen-IsWithin (done user task) (w, db) h =
      let d = flush_done-less user task w in (omega (arith, d.0, d.1), d.1)

  -- Through every sequence of polls and ends of flushes, with other clients of the store in
  -- between, a worker that starts within its batch size never runs more flushes than its batch
  -- size, which stays the same.
  pub history-IsWithin :
      (es : List (Event r.Db)) (s : Worker × r.Db)
      → IsWithin s.0
      → IsWithin (history es s).0 × ((history es s).0.batch_size ≡ s.0.batch_size)
  unfolding history
  history-IsWithin [] s h = (h, refl)
  history-IsWithin (e ∷ es) s h =
      let one = happen-IsWithin e s h in
      let rest = history-IsWithin es (happen e s) one.0 in (rest.0, rest.1 ∙ one.1)
