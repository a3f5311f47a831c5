-- ===== src/Types/Dup.antt =====
-- Copies of types: `type_dup`, `type_new_array` and `type_new_struct` of src/types.c.
use plcstub.Base.{
  ℕ, zero, suc, ◌+◌, ◌*◌, ◌%◌, ◌≤◌, ◌<◌, ◌≡◌, ◌≢◌, ◌⊎◌, inl, inr, refl, String, Bool, true, arith,
  leb, ap, Bool-cases,
}
use plcstub.Outcome.{
  Outcome, done, exit, blocked, fault, out_of_bounds, ◌>>=◌, >>=-eq-done, unless_exit,
}
use plcstub.Types.{
  TypeT, Fields, word, array, struct, end, field, count, u16, new_array, fill_field, type_dup,
  dup_fields, type_new_array, type_new_struct,
}
use plcstub.Types.Size.{IsWellFormed, AreWellFormed}

-- No part of the type is a struct that has a field.
abbrev pub HasNoFields : TypeT → Type 0
HasNoFields (word n) = Unit
HasNoFields (array len m) = HasNoFields m
HasNoFields (struct cnt end) = Unit
HasNoFields (struct cnt (field _ _ _)) = ⊥

-- A round of the loop that ends well has had room for its field, and so has the rest.
fill_field-done :
    (room i : ℕ) (name : String) (copy : Outcome TypeT) (rest : Outcome Fields) {new : Fields}
    → fill_field room i name copy rest ≡ done new
    → (fs : Fields) × (rest ≡ done fs) × (8 + 16 * i + 16 ≤ room)
unfolding fill_field
fill_field-done room i name (done t) (done fs) e = (fs, refl, ground arith)
fill_field-done room i name (done t) exit e = absurd (ground arith)
fill_field-done room i name (done t) blocked e = absurd (ground arith)
fill_field-done room i name (done t) (fault f) e = absurd (ground arith)
fill_field-done room i name exit rest e = absurd (ground arith)
fill_field-done room i name blocked rest e = absurd (ground arith)
fill_field-done room i name (fault f) rest e = absurd (ground arith)

-- A copy returns, or writes past the end of a block.
abbrev Ends : {A : Type 0} → Outcome A → Type 0
Ends o = ((a : _) × (o ≡ done a)) ⊎ (o ≡ fault out_of_bounds)

fill_field-Ends :
    (room i : ℕ) (name : String) (copy : Outcome TypeT) (rest : Outcome Fields)
    → Ends copy
    → Ends rest
    → Ends (fill_field room i name copy rest)
unfolding fill_field
fill_field-Ends room i name copy rest c r = elim (Bool-cases (leb (8 + 16 * i + 8) room)) [
  | inr a ↦ inr (rw a)
  | inl a ↦ elim c [
    | inr e ↦ inr (rw (a, e))
    | inl (t, e) ↦ elim (Bool-cases (leb (8 + 16 * i + 16) room)) [
      | inr b ↦ inr (rw (a, e, b))
      | inl b ↦ elim r [
        | inr f ↦ inr (rw (a, e, b, f))
        | inl (fs, f) ↦ inl (field name t fs, rw (a, e, b, f))
      ]
    ]
  ]
]

-- So the block has room for all the fields.
dup_fields-room :
    (mem : ℕ → Bool) (room k i : ℕ) (fs new : Fields)
    → dup_fields mem room (suc k) i fs ≡ done new
    → 8 + 16 * (i + suc k) ≤ room
unfolding type_dup
dup_fields-room mem room k i end new e = absurd (ground arith)
dup_fields-room mem room zero i (field n t fs) new e =
    let (rest, f, fits) =
      fill_field-done room i n (type_dup mem t) (dup_fields mem room zero (i + 1) fs) e in
    omega arith
dup_fields-room mem room (suc k) i (field n t fs) new e =
    let (rest, f, fits) =
      fill_field-done room i n (type_dup mem t) (dup_fields mem room (suc k) (i + 1) fs) e in
    omega (arith, dup_fields-room mem room k (i + 1) fs rest f)

module _ (mem : ℕ → Bool) where
  -- `type_dup` does not return from a struct that has a field: its block has eight bytes a field.
  struct-done : (k : ℕ) (fs : Fields) {new : TypeT} → type_dup mem (struct (suc k) fs) ≢ done new
  unfolding type_dup
  struct-done k fs e =
      let room : ℕ = 8 + suc k * 8 in
      let (_, _, e') =
        >>=-eq-done (unless_exit (mem room))
          (λ _. dup_fields mem room (suc k) 0 fs >>= λ new. done (struct (suc k) new)) e in
      let (new, f, _) =
        >>=-eq-done (dup_fields mem room (suc k) 0 fs) (λ new. done (struct (suc k) new)) e' in
      absurd (omega (arith, dup_fields-room mem room k 0 fs new f))

  array-done :
      (len : ℕ) (m : TypeT) {new : TypeT}
      → type_dup mem (array len m) ≡ done new
      → (m' : TypeT) × (type_dup mem m ≡ done m')
  unfolding type_dup new_array
  array-done len m e =
      let (_, _, e') =
        >>=-eq-done (unless_exit (mem 24))
          (λ _. type_dup mem m >>= λ m'. done (array (len % u16) m')) e in
      let (m', f, _) = >>=-eq-done (type_dup mem m) (λ m'. done (array (len % u16) m')) e' in
      (m', f)

  -- Only the types in which no struct has a field are copied at all.
  HasNoFields-done :
      (t : TypeT) {new : TypeT} → IsWellFormed t → type_dup mem t ≡ done new → HasNoFields t
  HasNoFields-done (word n) w e = tt
  HasNoFields-done (array len m) w e = HasNoFields-done m w.1 (array-done len m e).1
  HasNoFields-done (struct cnt end) w e = tt
  HasNoFields-done (struct zero (field n t fs)) w e = absurd (omega (arith, w.1))
  HasNoFields-done (struct (suc k) (field n t fs)) w e = absurd (struct-done k (field n t fs) e)

  module _ (all : (n : ℕ) → mem n ≡ true) where
    done_of_HasNoFields : (t : TypeT) → IsWellFormed t → HasNoFields t → type_dup mem t ≡ done t
    unfolding type_dup new_array
    done_of_HasNoFields (word n) w h = refl
    done_of_HasNoFields (array len m) w h =
        rw (all 24, done_of_HasNoFields m w.1 h) (ap (λ l. done (array l m)) (omega (arith, w.0)))
    done_of_HasNoFields (struct zero end) w h = rw (all 8)
    done_of_HasNoFields (struct (suc k) end) w h = absurd (omega (arith, w.1))
    done_of_HasNoFields (struct cnt (field n t fs)) w h = absurd h

    array-Ends : (len : ℕ) (m : Outcome TypeT) → Ends m → Ends (new_array mem len m)
    unfolding new_array
    array-Ends len m (inl (t, e)) = inl (array (len % u16) t, rw (all 24, e))
    array-Ends len m (inr e) = inr (rw (all 24, e))

    struct-Ends :
        (cnt : ℕ) (o : Outcome Fields) → Ends o → Ends (o >>= λ new. done (struct cnt new))
    struct-Ends cnt o (inl (fs, e)) = inl (struct cnt fs, rw e)
    struct-Ends cnt o (inr e) = inr (rw e)

    mutual
      unfolding type_dup

      type_dup-Ends : (t : TypeT) → Ends (type_dup mem t)
      type_dup-Ends (word n) = inl (word n, refl)
      type_dup-Ends (array len m) = array-Ends len (type_dup mem m) (type_dup-Ends m)
      type_dup-Ends (struct cnt fs) =
          let room : ℕ = 8 + cnt * 8 in
          rw (all room)
            (struct-Ends cnt (dup_fields mem room cnt 0 fs) (dup_fields-Ends room cnt 0 fs))

      dup_fields-Ends : (room k i : ℕ) (fs : Fields) → Ends (dup_fields mem room k i fs)
      dup_fields-Ends room zero i fs = inl (end, refl)
      dup_fields-Ends room (suc k) i end = inr refl
      dup_fields-Ends room (suc k) i (field name t fs) =
          fill_field-Ends room i name (type_dup mem t) (dup_fields mem room k (i + 1) fs)
            (type_dup-Ends t) (dup_fields-Ends room k (i + 1) fs)

    -- Where every allocation succeeds, `type_dup` of a well-formed type in which no struct has a
    -- field returns an equal type, and of any other well-formed type it writes past the end of a
    -- block that it has allocated.
    pub type_dup-cases :
        (t : TypeT)
        → IsWellFormed t
        → (HasNoFields t × (type_dup mem t ≡ done t))
          ⊎ ((HasNoFields t → ⊥) × (type_dup mem t ≡ fault out_of_bounds))
    type_dup-cases t w = elim (type_dup-Ends t) [
      | inl (new, e) ↦ let h = HasNoFields-done t w e in inl (h, done_of_HasNoFields t w h)
      | inr e ↦ inr ((λ h. let d = done_of_HasNoFields t w h in cc), e)
    ]

    abbrev pub EachHasNoFields : Fields → Type 0
    EachHasNoFields end = Unit
    EachHasNoFields (field _ t fs) = HasNoFields t × EachHasNoFields fs

    dup_fields-fits :
        (room i : ℕ) (fs : Fields)
        → AreWellFormed fs
        → EachHasNoFields fs
        → 8 + 16 * (i + count fs) ≤ room
        → dup_fields mem room (count fs) i fs ≡ done fs
    unfolding type_dup fill_field
    dup_fields-fits room i end w h fits = refl
    dup_fields-fits room i (field n t fs) w h fits =
        let a : leb (8 + 16 * i + 8) room ≡ true = ground arith in
        let b : leb (8 + 16 * i + 16) room ≡ true = ground arith in
        rw (
          a,
          done_of_HasNoFields t w.0 h.0,
          b,
          dup_fields-fits room (i + 1) fs w.1 h.1 (omega arith),
        )

    -- Where every allocation succeeds, `type_new_struct` of fewer than 2^16 well-formed fields, none
    -- of a type that holds a struct with a field, returns the struct of these fields, and stays
    -- inside its block.
    pub type_new_struct-done :
        (args : Fields)
        → AreWellFormed args
        → EachHasNoFields args
        → count args < u16
        → type_new_struct mem args ≡ done (struct (count args) args)
    unfolding type_new_struct
    type_new_struct-done args w h small =
        rw
          (
            all (8 + count args * 16),
            dup_fields-fits (8 + count args * 16) 0 args w h (omega arith),
          )
          (ap (λ c. done (struct c args)) (omega arith))

    -- Where every allocation succeeds, `type_new_array` of a well-formed member type that holds no
    -- struct with a field returns an array of that type whose length is the requested one modulo
    -- 2^16.
    pub type_new_array-done :
        (cnt : ℕ) (m : TypeT)
        → IsWellFormed m
        → HasNoFields m
        → type_new_array mem cnt m ≡ done (array (cnt % u16) m)
    unfolding type_new_array
    type_new_array-done cnt m w h = rw (all 24, done_of_HasNoFields m w h)
