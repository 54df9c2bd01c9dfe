-- ===== src/Inliner/Adjust/Splice.antt =====
-- The resize and the two loops of the adjust functions insert one list into another.
use native.Mathlib.Nat.{add-zero, add-suc, suc-add}
use gino.Base.{
  ℕ, ◌<◌, ◌⊎◌, ◌≢◌, inl, inr, ℕ_discrete, zero, suc, ◌+◌, ◌-◌, ◌≤◌, ◌≡◌, refl, ap, ltb, lt→ltb,
  dec_lt, List, [], ◌∷◌, ◌++◌, length, get_or, set, take, drop, replicate, length-append,
  length-set, length-replicate, length-take, length-drop, if◌then◌else◌, arith, ◌∙◌, sym,
}
use gino.Inliner.Adjust.{shift_entries, write_entries, insert_entries}

get_or-set_self : (xs : List ℕ) (i v : ℕ) → i < length xs → get_or (set xs i v) i 0 ≡ v
get_or-set_self [] i v h = absurd (omega arith)
get_or-set_self (x ∷ xs) zero v h = refl
get_or-set_self (x ∷ xs) (suc i) v h = get_or-set_self xs i v (omega arith)

get_or-set_ne : (xs : List ℕ) (i v j : ℕ) → i ≢ j → get_or (set xs i v) j 0 ≡ get_or xs j 0
get_or-set_ne [] i v j h = refl
get_or-set_ne (x ∷ xs) zero v zero h = absurd (h refl)
get_or-set_ne (x ∷ xs) zero v (suc j) h = refl
get_or-set_ne (x ∷ xs) (suc i) v zero h = refl
get_or-set_ne (x ∷ xs) (suc i) v (suc j) h = get_or-set_ne xs i v j (λ e. h (ap suc e))

get_or-append :
    (xs ys : List ℕ) (j : ℕ)
    → get_or (xs ++ ys) j 0
      ≡ (if ltb j (length xs) then get_or xs j 0 else get_or ys (j - length xs) 0)
get_or-append [] ys j = ground arith
get_or-append (x ∷ xs) ys zero = ground arith
get_or-append (x ∷ xs) ys (suc j) = ground (arith, get_or-append xs ys j)

get_or-take :
    (n : ℕ) (xs : List ℕ) (j : ℕ) → get_or (take n xs) j 0 ≡ (if ltb j n then get_or xs j 0 else 0)
get_or-take zero xs j = ground arith
get_or-take (suc n) [] j = ground arith
get_or-take (suc n) (x ∷ xs) zero = ground arith
get_or-take (suc n) (x ∷ xs) (suc j) = ground (arith, get_or-take n xs j)

get_or-drop : (n : ℕ) (xs : List ℕ) (j : ℕ) → get_or (drop n xs) j 0 ≡ get_or xs (n + j) 0
get_or-drop zero xs j = ground arith
get_or-drop (suc n) [] j = ground arith
get_or-drop (suc n) (x ∷ xs) j = ground (arith, get_or-drop n xs j)

get_or-replicate : (n j : ℕ) → get_or {A = ℕ} (replicate n 0) j 0 ≡ 0
get_or-replicate zero j = refl
get_or-replicate (suc n) zero = refl
get_or-replicate (suc n) (suc j) = get_or-replicate n j

get_or_past : (xs : List ℕ) (j : ℕ) → length xs ≤ j → get_or xs j 0 ≡ 0
get_or_past [] j h = refl
get_or_past (x ∷ xs) zero h = absurd (omega arith)
get_or_past (x ∷ xs) (suc j) h = get_or_past xs j (omega arith)

-- Lists of one length with the same entries.
get_or_ext :
    (xs ys : List ℕ) → length xs ≡ length ys → ((j : ℕ) → get_or xs j 0 ≡ get_or ys j 0) → xs ≡ ys
get_or_ext [] [] l e = refl
get_or_ext [] (y ∷ ys) l e = absurd (omega arith)
get_or_ext (x ∷ xs) [] l e = absurd (omega arith)
get_or_ext (x ∷ xs) (y ∷ ys) l e =
    let rest = get_or_ext xs ys (omega arith) (λ j. e (suc j)) in cc (e 0)

length-shift_entries :
    (n end_index count : ℕ) (xs : List ℕ) → length (shift_entries n end_index count xs) ≡ length xs
unfolding shift_entries
length-shift_entries zero end_index count xs = refl
length-shift_entries (suc n) end_index count xs =
    length-shift_entries n end_index count
      (set xs (end_index + n) (get_or xs (end_index + n - count) 0))
    ∙ length-set xs (end_index + n) (get_or xs (end_index + n - count) 0)

length-write_entries : (index : ℕ) (ys xs : List ℕ) → length (write_entries index ys xs) ≡ length xs
unfolding write_entries
length-write_entries index [] xs = refl
length-write_entries index (y ∷ ys) xs =
    length-write_entries (suc index) ys (set xs index y) ∙ length-set xs index y

-- One round of the loop writes the entry `last`, and no other.
shift_kept :
    (n end_index count : ℕ) (xs : List ℕ) (j : ℕ)
    → (j < end_index) ⊎ (end_index + n ≤ j)
    → get_or (shift_entries n end_index count xs) j 0 ≡ get_or xs j 0
unfolding shift_entries
shift_kept zero end_index count xs j h = refl
shift_kept (suc n) end_index count xs j h =
    let last = end_index + n in
    let v = get_or xs (end_index + n - count) 0 in
    shift_kept n end_index count (set xs last v) j
      (elim h [ inl before ↦ inl before | inr after ↦ inr (omega arith) ])
    ∙ get_or-set_ne xs last v j
        (λ e. elim h [ inl before ↦ omega (arith, e) | inr after ↦ omega (arith, e) ])

shift_moved :
    (n end_index count : ℕ) (xs : List ℕ) (j : ℕ)
    → 0 < count
    → count ≤ end_index
    → end_index + n ≤ length xs
    → end_index ≤ j
    → j < end_index + n
    → get_or (shift_entries n end_index count xs) j 0 ≡ get_or xs (j - count) 0
unfolding shift_entries
shift_moved zero end_index count xs j p c h from to = absurd (omega arith)
shift_moved (suc n) end_index count xs j p c h from to =
    let last = end_index + n in
    let v = get_or xs (end_index + n - count) 0 in
    elim (ℕ_discrete last j) [
      | yes same ↦
          shift_kept n end_index count (set xs last v) j (inr (omega (arith, same)))
          ∙ rw (← same) (get_or-set_self xs last v (omega arith))
      | no other ↦
          shift_moved n end_index count (set xs last v) j p c (omega (arith, length-set xs last v))
            from (omega (arith, other))
          ∙ get_or-set_ne xs last v (j - count) (λ e. omega (arith, e))
    ]

write_kept :
    (index : ℕ) (ys xs : List ℕ) (j : ℕ)
    → (j < index) ⊎ (index + length ys ≤ j)
    → get_or (write_entries index ys xs) j 0 ≡ get_or xs j 0
unfolding write_entries
write_kept index [] xs j h = refl
write_kept index (y ∷ ys) xs j h =
    write_kept (suc index) ys (set xs index y) j
      (elim h [ inl before ↦ inl (omega arith) | inr after ↦ inr (omega arith) ])
    ∙ get_or-set_ne xs index y j
        (λ e. elim h [ inl before ↦ omega (arith, e) | inr after ↦ omega (arith, e) ])

write_written :
    (index : ℕ) (ys xs : List ℕ) (k : ℕ)
    → index + length ys ≤ length xs
    → k < length ys
    → get_or (write_entries index ys xs) (index + k) 0 ≡ get_or ys k 0
unfolding write_entries
write_written index [] xs k h l = absurd (omega arith)
write_written index (y ∷ ys) xs zero h l =
    write_kept (suc index) ys (set xs index y) (index + 0) (inl (omega arith))
    ∙ rw (add-zero index) (get_or-set_self xs index y (omega arith))
write_written index (y ∷ ys) xs (suc k) h l = rw (add-suc index k) (
    rw (← suc-add index k) (
      write_written (suc index) ys (set xs index y) k (omega (arith, length-set xs index y))
        (omega arith)))

module _ (index : ℕ) (new xs : List ℕ) (h : index ≤ length xs) (some_new : 0 < length new) where
  abbrev spliced : List ℕ
  spliced = take index xs ++ (new ++ drop index xs)

  abbrev resized : List ℕ
  resized = xs ++ replicate (length new) 0

  abbrev end_index : ℕ
  end_index = index + length new

  abbrev rounds : ℕ
  rounds = length resized - end_index

  abbrev shifted : List ℕ
  shifted = shift_entries rounds end_index (length new) resized

  length-resized : length resized ≡ length xs + length new
  length-resized =
      omega
        (arith, length-append xs (replicate (length new) 0), length-replicate (length new) (zero))

  length-shifted : length shifted ≡ length xs + length new
  length-shifted = length-shift_entries rounds end_index (length new) resized ∙ length-resized

  length-spliced : length (insert_entries index new xs) ≡ length spliced
  unfolding insert_entries
  length-spliced =
      length-write_entries index new shifted
      ∙ omega (
        arith,
        length-shifted,
        length-append (take index xs) (new ++ drop index xs),
        length-append new (drop index xs),
        length-take index xs,
        length-drop index xs,
      )

  spliced_before : (j : ℕ) → j < index → get_or (insert_entries index new xs) j 0 ≡ get_or xs j 0
  unfolding insert_entries
  spliced_before j b =
      write_kept index new shifted j (inl b)
      ∙ shift_kept rounds end_index (length new) resized j (inl (omega arith))
      ∙ rw (get_or-append xs (replicate (length new) 0) j)
          (rw (lt→ltb j (length xs) (omega arith)) refl)

  spliced_new :
      (k : ℕ) → k < length new → get_or (insert_entries index new xs) (index + k) 0 ≡ get_or new k 0
  unfolding insert_entries
  spliced_new k b = write_written index new shifted k (omega (arith, length-shifted)) b

  spliced_after :
      (k : ℕ) → get_or (insert_entries index new xs) (end_index + k) 0 ≡ get_or xs (index + k) 0
  unfolding insert_entries
  spliced_after k = elim (dec_lt (index + k) (length xs)) [
    | yes inside ↦
        write_kept index new shifted (end_index + k) (inr (omega arith))
        ∙ shift_moved rounds end_index (length new) resized (end_index + k) some_new (omega arith)
            (omega (arith, length-resized)) (omega arith) (omega (arith, length-resized))
        ∙ ground
            (arith, get_or-append xs (replicate (length new) 0) (end_index + k - length new), e)
    | no outside ↦
        get_or_past (insert_entries index new xs) (end_index + k)
          (omega (arith, length-shifted, length-write_entries index new shifted))
        ∙ sym (get_or_past xs (index + k) (omega arith))
  ]
    where
      e : end_index + k - length new ≡ index + k
      e = omega arith

  spliced_entry : (j : ℕ) → get_or (insert_entries index new xs) j 0 ≡ get_or spliced j 0
  spliced_entry j = elim (dec_lt j index) [
    | yes before ↦
        spliced_before j before
        ∙ sym (
            get_or-append (take index xs) (new ++ drop index xs) j
            ∙ rw (lt→ltb j (length (take index xs)) (omega (arith, length-take index xs)))
                (get_or-take index xs j ∙ rw (lt→ltb j index before) refl))
    | no not_before ↦
        let k = j - index in
        let at : index + k ≡ j = omega arith in
        rw (← at) (
          in_tail k
          ∙ sym (
              get_or-append (take index xs) (new ++ drop index xs) (index + k)
              ∙ ground (arith, length-take index xs)))
  ]
    where
      in_tail :
          (k : ℕ)
          → get_or (insert_entries index new xs) (index + k) 0 ≡ get_or (new ++ drop index xs) k 0
      in_tail k = elim (dec_lt k (length new)) [
        | yes inside ↦
            spliced_new k inside
            ∙ sym (get_or-append new (drop index xs) k ∙ rw (lt→ltb k (length new) inside) refl)
        | no outside ↦
            let i = k - length new in
            let at : length new + i ≡ k = omega arith in
            let at' : end_index + i ≡ index + k = omega arith in
            rw (← at') (
              spliced_after i
              ∙ sym (get_or-append new (drop index xs) k ∙ ground (arith, get_or-drop index xs i)))
      ]

  -- The entries of `new` stand before those that were from the index on.
  pub insert_entries-eq : insert_entries index new xs ≡ spliced
  insert_entries-eq = get_or_ext (insert_entries index new xs) spliced length-spliced spliced_entry
