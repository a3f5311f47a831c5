-- ===== src/Session/Returns.antt =====
-- The calls of calm clients return: first by the specification, then those of src/plcstub.c.
use plcstub.Base.{
  ℕ, ◌+◌, ◌^◌, ◌≤◌, ◌<◌, ◌≡◌, refl, sym, false, some, Bool-cases, inl, inr, List, [], ◌∷◌, ◌++◌,
  arith, ℤ, pos, ◌≤ℤ◌, ◌<ℤ◌, ◌==ℤ◌, eq_of_==ℤ, length, take, drop, suc_ℤ,
}
use plcstub.Bytes.{Bytes, splice, encode, decode}
use plcstub.Bytes.Laws.{load-in_bounds, store-in_bounds, length-splice}
use plcstub.Outcome.{done}
use plcstub.Env.Heap.{Node}
use plcstub.Status.{status_ok, err_bad_param}
use plcstub.TagTree.State.{Event}
use plcstub.TagTree.Ops.{int_max}
use plcstub.Api.Access.{
  Accessor, width, cast, getter_cb, setter_cb, read_started, read_completed, write_started,
  write_completed,
}
use plcstub.Session.{Result, int, value}
use plcstub.Session.Spec.{
  Action, find_tag, replace_tag, drop_tag, id_after, get_action, set_action, status_action,
  notify_action, register_action, both, refused,
}
use plcstub.Session.Calm.{HasRoom, scalar, byte_array, Suits, accepted_in_bounds}

-- Nobody holds the tag's mutex, and its buffer has room for the accesses.
abbrev pub IsCalmTag : Node → Type 0
IsCalmTag n = (n.locked ≡ false) × HasRoom n

-- All tags are calm, and their IDs lie below `m`.
abbrev pub AreCalm : ℕ → List Node → Type 0
AreCalm m [] = Unit
AreCalm m (n ∷ ns) = IsCalmTag n × (n.tag_id <ℤ pos m) × AreCalm m ns

pub AreCalm-weaken : (m : ℕ) (ns : List Node) → AreCalm m ns → AreCalm (m + 1) ns
AreCalm-weaken m [] c = tt
AreCalm-weaken m (n ∷ ns) c = (c.0, omega arith, AreCalm-weaken m ns c.2)

pub AreCalm-find :
    (m : ℕ) (id : ℤ) (ns : List Node) (n : Node)
    → AreCalm m ns
    → find_tag id ns ≡ some n
    → IsCalmTag n × (n.tag_id ≡ id) × (n.tag_id <ℤ pos m)
unfolding find_tag
AreCalm-find m id [] n c f = absurd (ground arith)
AreCalm-find m id (x ∷ ns) n c f = elim (Bool-cases (id ==ℤ x.tag_id)) [
  | inl hit ↦
      let same : x ≡ n = ground arith in rw (← same) (c.0, sym (eq_of_==ℤ id x.tag_id hit), c.1)
  | inr miss ↦ AreCalm-find m id ns n c.2 (ground arith)
]

pub AreCalm-replace :
    (m : ℕ) (id : ℤ) (x : Node) (ns : List Node)
    → AreCalm m ns
    → IsCalmTag x
    → x.tag_id <ℤ pos m
    → AreCalm m (replace_tag id x ns)
unfolding replace_tag
AreCalm-replace m id x [] c calm lt = tt
AreCalm-replace m id x (n ∷ ns) c calm lt = elim (Bool-cases (id ==ℤ n.tag_id)) [
  | inl hit ↦ rw hit (calm, lt, c.2)
  | inr miss ↦ rw miss (c.0, c.1, AreCalm-replace m id x ns c.2 calm lt)
]

pub AreCalm-drop : (m : ℕ) (id : ℤ) (ns : List Node) → AreCalm m ns → AreCalm m (drop_tag id ns)
unfolding drop_tag
AreCalm-drop m id [] c = tt
AreCalm-drop m id (n ∷ ns) c = elim (Bool-cases (id ==ℤ n.tag_id)) [
  | inl hit ↦ rw hit (AreCalm-drop m id ns c.2)
  | inr miss ↦ rw miss (c.0, c.1, AreCalm-drop m id ns c.2)
]

pub AreCalm-append :
    (m : ℕ) (ns : List Node) (n : Node)
    → AreCalm m ns
    → IsCalmTag n
    → n.tag_id <ℤ pos m
    → AreCalm m (ns ++ n ∷ [])
AreCalm-append m [] n c calm lt = (calm, lt, tt)
AreCalm-append m (x ∷ ns) n c calm lt = (c.0, c.1, AreCalm-append m ns n c.2 calm lt)

-- The next ID is there.
pub id_after-done :
    (m : ℕ) (ns : List Node)
    → AreCalm m ns
    → 2 ≤ m
    → m < 2 ^ 31
    → (id : ℤ) × (id_after ns ≡ done id) × (id <ℤ pos (m + 1))
unfolding id_after
id_after-done m [] c two small = (pos 2, refl, omega arith)
id_after-done m (n ∷ []) c two small =
    let below : (n.tag_id ==ℤ int_max) ≡ false = ground arith in
    (suc_ℤ n.tag_id, rw below, ground arith)
id_after-done m (n ∷ x ∷ ns) c two small = id_after-done m (x ∷ ns) c.2 two small

-- An action that returns on a calm tag and leaves it calm.
abbrev pub Returns : Action → ℤ → Type 0
Returns act id =
    (n : Node) (es : List Event)
    → IsCalmTag n
    → n.tag_id ≡ id
    → (r : Result) × (x : Node) × (es' : List Event) × (act n es ≡ done (r, x, es'))
      × IsCalmTag x
      × (x.tag_id ≡ n.tag_id)

HasRoom-contents :
    (n : Node) (d : Bytes)
    → HasRoom n
    → length d ≡ length n.contents
    → HasRoom (record n { contents = d })
HasRoom-contents n d (scalar s le) e = scalar s (omega arith)
HasRoom-contents n d (byte_array len typed small le meta) e =
    byte_array len typed small (omega arith) meta

pub status-Returns : (id : ℤ) → Returns status_action id
unfolding status_action
status-Returns id n es calm same = (_, n, es, refl, calm, refl)

pub notify-Returns : (id first second : ℤ) → Returns (notify_action id first second) id
unfolding notify_action
notify-Returns id first second n es calm same =
    (int status_ok, n, both id first second n es, simp calm.0, calm, refl)

HasRoom-cb : (n : Node) (cb : _) → HasRoom n → HasRoom (record n { cb = cb })
HasRoom-cb n cb (scalar s le) = scalar s le
HasRoom-cb n cb (byte_array len typed small le meta) = byte_array len typed small le meta

pub register-Returns : (id : ℤ) (cb : _) → Returns (register_action cb) id
unfolding register_action
register-Returns id cb n es calm same =
    (int status_ok, record n { cb = cb }, es, simp calm.0, (calm.0, HasRoom-cb n cb calm.1), refl)

pub get-Returns :
    (fb : ℕ → ℤ → ℕ) (a : Accessor) (id offset : ℤ)
    → pos 0 ≤ℤ offset
    → Suits a id
    → Returns (get_action fb a id offset) id
unfolding get_action getter_cb
get-Returns fb a id offset nonneg suits n es calm same =
    elim (accepted_in_bounds a n offset calm.1 nonneg (rw same suits)) [
      | inl r ↦ (
        value (cast fb a err_bad_param),
        n,
        refused id read_started n es,
        simp (calm.0, r),
        calm,
        refl,
      )
      | inr (off, r, fits) ↦ (
        value (decode (take (width a) (drop off n.contents))),
        n,
        both id read_started read_completed n es,
        simp (calm.0, r, load-in_bounds (width a) off n.contents fits),
        calm,
        refl,
      )
    ]

pub set-Returns :
    (a : Accessor) (id offset : ℤ) (v : ℕ)
    → pos 0 ≤ℤ offset
    → Suits a id
    → Returns (set_action a id offset v) id
unfolding set_action setter_cb
set-Returns a id offset v nonneg suits n es calm same =
    elim (accepted_in_bounds a n offset calm.1 nonneg (rw same suits)) [
      | inl r ↦ (int err_bad_param, n, refused id write_started n es, simp (calm.0, r), calm, refl)
      | inr (off, r, fits) ↦
          let d : Bytes = splice off (encode (width a) v) n.contents in
          (
            int status_ok,
            record n { contents = d },
            both id write_started write_completed n es,
            simp (calm.0, r, store-in_bounds (width a) off v n.contents fits),
            (
              calm.0,
              HasRoom-contents n d calm.1 (length-splice off (encode (width a) v) n.contents),
            ),
            refl,
          )
    ]
