-- ===== src/Audit/Batches.antt =====
-- Reading the trail of campusid/audit/log.py in batches, and writing to it.
use campus_id.Shared.{
  ℕ, zero, suc, ◌≤◌, ◌<◌, ◌≡◌, refl, sym, ap, ◌∙◌, inl, inr, true, false, Option, none, some,
  String, List, [], ◌∷◌, ◌++◌, arith, leb, ltb, length, filter, Bool-cases, Option-cases,
}
use campus_id.Audit.Chain.{
  Text, text_eq, Host, Event, Broken, link, not_after, verify_loop, verify_from, last_hash, take,
  last_seq_of, verify_batches, verify_chain, write, Cell,
}
use campus_id.Audit.Tamper.{verify_loop-Linked, text_eq_self}

module _ (host : Host) where
  -- The rows of the table in the order of `seq`, all above a number.
  abbrev pub IsIncreasing : ℕ → List (Event host) → Type 0
  IsIncreasing last [] = Unit
  IsIncreasing last (event ∷ events) = (last < event.seq) × IsIncreasing event.seq events

  abbrev pub above : ℕ → List (Event host) → List (Event host)
  above last = filter (λ event. ltb last event.seq)

  drop : ℕ → List (Event host) → List (Event host)
  drop zero events = events
  drop (suc n) [] = []
  drop (suc n) (event ∷ events) = drop n events

  take-append-drop :
      (n : ℕ) (events : List (Event host)) → take host n events ++ drop n events ≡ events
  unfolding take drop
  take-append-drop zero events = refl
  take-append-drop (suc n) [] = refl
  take-append-drop (suc n) (event ∷ events) = ap (λ r. event ∷ r) (take-append-drop n events)

  above_all :
      (last low : ℕ) (events : List (Event host))
      → last ≤ low
      → IsIncreasing low events
      → above last events ≡ events
  above_all last low [] h s = refl
  above_all last low (event ∷ events) h s =
      let e : ltb last event.seq ≡ true = ground arith in
      rw (e, above_all last event.seq events (omega arith) s.1)

  above-IsIncreasing :
      (last low : ℕ) (events : List (Event host))
      → IsIncreasing low events
      → IsIncreasing last (above last events)
  above-IsIncreasing last low [] s = tt
  above-IsIncreasing last low (event ∷ events) s = elim (Bool-cases (ltb last event.seq)) [
    | inl e ↦
        let h : last < event.seq = ground arith in
        rw (e, above_all last event.seq events (omega arith) s.1) (h, s.1)
    | inr e ↦ rw e (above-IsIncreasing last event.seq events s.1)
  ]

  above-above :
      (m last : ℕ) (events : List (Event host))
      → last ≤ m
      → above m (above last events) ≡ above m events
  above-above m last [] h = refl
  above-above m last (event ∷ events) h = elim (Bool-cases (ltb last event.seq)) [
    | inl e ↦ rw (e, above-above m last events h)
    | inr e ↦
        let f : ltb m event.seq ≡ false = ground arith in rw (e, f) (above-above m last events h)
  ]

  last_seq_of-le :
      (last n : ℕ) (events : List (Event host))
      → IsIncreasing last events
      → last ≤ last_seq_of host last (take host n events)
  unfolding last_seq_of take
  last_seq_of-le last zero events s = omega arith
  last_seq_of-le last (suc n) [] s = omega arith
  last_seq_of-le last (suc n) (event ∷ events) s =
      omega (arith, last_seq_of-le event.seq n events s.1)

  -- What lies above the last row of a batch is what the batch left.
  above-drop :
      (last n : ℕ) (events : List (Event host))
      → IsIncreasing last events
      → above (last_seq_of host last (take host n events)) events ≡ drop n events
  unfolding last_seq_of take drop
  above-drop last zero events s = above_all last last events (omega arith) s
  above-drop last (suc n) [] s = refl
  above-drop last (suc n) (event ∷ events) s =
      let h : event.seq ≤ last_seq_of host event.seq (take host n events) =
        last_seq_of-le event.seq n events s.1 in
      let f : ltb (last_seq_of host event.seq (take host n events)) event.seq ≡ false =
        ground arith in
      rw f (above-drop event.seq n events s.1)

  abbrev pub last_of : Option ℕ → List (Event host) → Option ℕ
  last_of last [] = last
  last_of last (event ∷ events) = some (last_seq_of host event.seq events)

  verify_loop_step :
      (last : Option ℕ) (expected : Text) (x : Event host) (zs : List (Event host))
      → not_after last x.seq ≡ false
      → x.prev_hash ≡ expected
      → link host expected x.columns ≡ x.hash
      → verify_loop host last expected (x ∷ zs) ≡ verify_loop host (some x.seq) x.hash zs
  unfolding verify_loop
  verify_loop_step last expected x zs after linked hashed =
      rw (after, linked, text_eq_self expected, hashed, text_eq_self x.hash)

  last_of-some :
      (n : ℕ) (xs : List (Event host)) → last_of (some n) xs ≡ some (last_seq_of host n xs)
  last_of-some n [] = unfold last_seq_of in refl
  last_of-some n (x ∷ xs) = unfold last_seq_of in refl

  -- A walk over two parts is the walk over the first and then, if that found nothing, over the
  -- second.
  verify_loop-append :
      (last : Option ℕ) (expected : Text) (xs ys : List (Event host))
      → verify_loop host last expected xs ≡ none
      → verify_loop host last expected (xs ++ ys)
        ≡ verify_loop host (last_of last xs) (last_hash host expected xs) ys
  verify_loop-append last expected [] ys h = unfold last_hash in refl
  verify_loop-append last expected (x ∷ xs) ys h =
      let a = verify_loop-Linked host last expected x xs h in
      verify_loop_step last expected x (xs ++ ys) a.after a.linked a.hashed
      ∙ verify_loop-append (some x.seq) x.hash xs ys (rw a.hashed at a.rest)
      ∙ rw (last_of-some x.seq xs) (unfold last_hash in refl)

  verify_loop-append_broken :
      (last : Option ℕ) (expected : Text) (xs ys : List (Event host)) (b : Broken host)
      → verify_loop host last expected xs ≡ some b
      → verify_loop host last expected (xs ++ ys) ≡ some b
  unfolding verify_loop
  verify_loop-append_broken last expected [] ys b h = cc
  verify_loop-append_broken last expected (x ∷ xs) ys b h =
      elim (Bool-cases (not_after last x.seq)) [
        | inl early ↦ rw early (rw early at h)
        | inr after ↦ elim (Bool-cases (text_eq x.prev_hash expected)) [
          | inr apart ↦ rw (after, apart) (rw (after, apart) at h)
          | inl linked ↦ elim (Bool-cases (text_eq (link host expected x.columns) x.hash)) [
            | inr changed ↦ rw (after, linked, changed) (rw (after, linked, changed) at h)
            | inl hashed ↦
                rw (after, linked, hashed)
                  (verify_loop-append_broken (some x.seq) (link host expected x.columns) xs ys b
                    (rw (after, linked, hashed) at h))
          ]
        ]
      ]

  verify_loop_restart :
      (last : ℕ) (expected : Text) (ys : List (Event host))
      → IsIncreasing last ys
      → verify_loop host (some last) expected ys ≡ verify_loop host none expected ys
  unfolding verify_loop
  verify_loop_restart last expected [] s = refl
  verify_loop_restart last expected (y ∷ ys) s =
      let e : leb y.seq last ≡ false = ground arith in rw e

  length-drop : (n : ℕ) (xs : List (Event host)) → length (drop n xs) ≤ length xs
  unfolding drop
  length-drop zero xs = omega arith
  length-drop (suc n) [] = omega arith
  length-drop (suc n) (x ∷ xs) = omega (arith, length-drop n xs)

  IsIncreasing-drop :
      (last n : ℕ) (xs : List (Event host))
      → IsIncreasing last xs
      → IsIncreasing (last_seq_of host last (take host n xs)) (drop n xs)
  unfolding drop take last_seq_of
  IsIncreasing-drop last zero xs s = s
  IsIncreasing-drop last (suc n) [] s = tt
  IsIncreasing-drop last (suc n) (x ∷ xs) s = IsIncreasing-drop x.seq n xs s.1

  -- The walk over one batch, then over what is left, is the walk over all.
  verify_from_batch :
      (last n : ℕ) (expected : Text) (x : Event host) (xs : List (Event host))
      → IsIncreasing last (x ∷ xs)
      → verify_from host expected (x ∷ take host n xs) ≡ none
      → verify_from host (last_hash host expected (x ∷ take host n xs)) (drop n xs)
        ≡ verify_from host expected (x ∷ xs)
  unfolding verify_from
  verify_from_batch last n expected x xs s h = sym (
      ap (λ r. verify_loop host none expected (x ∷ r)) (sym (take-append-drop n xs))
      ∙ verify_loop-append none expected (x ∷ take host n xs) (drop n xs) h
      ∙ verify_loop_restart (last_seq_of host x.seq (take host n xs))
          (last_hash host expected (x ∷ take host n xs)) (drop n xs)
          (IsIncreasing-drop x.seq n xs s.1))

  batch_broken :
      (last n : ℕ) (expected : Text) (x : Event host) (xs : List (Event host)) (b : Broken host)
      → verify_from host expected (x ∷ take host n xs) ≡ some b
      → verify_from host expected (x ∷ xs) ≡ some b
  unfolding verify_from
  batch_broken last n expected x xs b found =
      ap (λ r. verify_loop host none expected (x ∷ r)) (sym (take-append-drop n xs))
      ∙ verify_loop-append_broken none expected (x ∷ take host n xs) (drop n xs) b found

  module _ (trail : List (Event host)) (low n : ℕ) (sorted : IsIncreasing low trail) where
    left_over :
        (last : ℕ) (x : Event host) (xs : List (Event host))
        → above last trail ≡ x ∷ xs
        → IsIncreasing last (x ∷ xs)
        → above (last_seq_of host x.seq (take host n xs)) trail ≡ drop n xs
    left_over last x xs e s =
        let h : x.seq ≤ last_seq_of host x.seq (take host n xs) = last_seq_of-le x.seq n xs s.1 in
        sym (above-above (last_seq_of host x.seq (take host n xs)) last trail (omega arith))
        ∙ ap (above (last_seq_of host x.seq (take host n xs))) e
        ∙ drop_head x xs h
        ∙ above-drop x.seq n xs s.1
      where
        drop_head :
            (y : Event host) (ys : List (Event host)) {m : ℕ}
            → y.seq ≤ m
            → above m (y ∷ ys) ≡ above m ys
        drop_head y ys {m} k = let f : ltb m y.seq ≡ false = ground arith in rw f

    verify_batches_go :
        (fuel : ℕ) (expected : Text) (last : ℕ) (rest : List (Event host))
        → above last trail ≡ rest
        → length rest < fuel
        → verify_batches host fuel (suc n) trail expected last
          ≡ some (verify_from host expected rest)
    unfolding verify_batches
    verify_batches_go zero expected last rest e h = absurd (omega arith)
    verify_batches_go (suc fuel) expected last [] e h =
        rw e (unfold verify_from verify_loop in refl)
    verify_batches_go (suc fuel) expected last (x ∷ xs) e h =
        elim (Option-cases (verify_from host expected (x ∷ take host n xs))) [
          | inr (b, found) ↦
              rw (e, found) (ap (λ r. some r) (sym (batch_broken last n expected x xs b found)))
          | inl clean ↦
              let s : IsIncreasing last (x ∷ xs) =
                rw e at (above-IsIncreasing last low trail sorted) in
              rw (e, clean)
                (verify_batches_go fuel (last_hash host expected (x ∷ take host n xs))
                    (last_seq_of host x.seq (take host n xs)) (drop n xs) (left_over last x xs e s)
                    (omega (arith, length-drop n xs))
                  ∙ ap (λ r. some r) (verify_from_batch last n expected x xs s clean))
        ]

  -- Reading the trail, whose sequence numbers are positive and increasing, in batches of any positive
  -- size and carrying the hash across finds what one walk over the whole trail finds: the same first
  -- break, or none; and the loop ends.
  pub verify_chain_exact :
      (batch : ℕ) (trail : List (Event host)) (start : Text)
      → 0 < batch
      → IsIncreasing 0 trail
      → verify_chain host batch trail start ≡ some (verify_from host start trail)
  verify_chain_exact zero trail start h sorted = absurd (omega arith)
  verify_chain_exact (suc n) trail start h sorted =
      unfold verify_chain in
      verify_batches_go trail 0 n sorted (suc (length trail)) start 0 trail
        (above_all 0 0 trail (omega arith) sorted) (omega arith)

  write_appends :
      (last : Option ℕ) (start : Text) (trail : List (Event host)) (e : Event host)
      → verify_loop host last start trail ≡ none
      → not_after (last_of last trail) e.seq ≡ false
      → e.prev_hash ≡ last_hash host start trail
      → link host (last_hash host start trail) e.columns ≡ e.hash
      → verify_loop host last start (trail ++ e ∷ []) ≡ none
  write_appends last start trail e v after linked hashed =
      verify_loop-append last start trail (e ∷ []) v
      ∙ verify_loop_step (last_of last trail) (last_hash host start trail) e [] after linked hashed
      ∙ unfold verify_loop in refl

  -- A trail that verifies still verifies after a write, provided the database numbers the new row
  -- above the last one.
  pub write_verifies :
      (start : Text) (trail : List (Event host)) (seq : ℕ) (columns : List (String × Cell host))
      → verify_from host start trail ≡ none
      → not_after (last_of none trail) seq ≡ false
      → verify_from host start (write host start trail seq columns) ≡ none
  unfolding verify_from write
  write_verifies start trail seq columns v after =
      write_appends none start trail
        (record {
          seq = seq;
          prev_hash = last_hash host start trail;
          hash = link host (last_hash host start trail) columns;
          columns = columns;
        })
        v after refl refl
