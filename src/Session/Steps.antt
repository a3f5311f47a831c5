-- ===== src/Session/Steps.antt =====
-- Single calls by calm clients: each returns, by the specification.
use plcstub.Base.{
  ℕ, ◌+◌, ◌%◌, ◌^◌, ◌≤◌, ◌<◌, ◌≡◌, refl, none, some, Bool-cases, Option-cases, inl, inr, List, [],
  ◌∷◌, ◌++◌, arith, ℤ, pos, ◌≤ℤ◌, ◌==ℤ◌, ltb_ℤ, length,
}
use plcstub.Types.{type_to_enum}
use plcstub.Bytes.{Bytes}
use plcstub.Outcome.{Outcome, done, exit, blocked, fault}
use plcstub.Env.Heap.{Node}
use plcstub.Status.{status_ok, err_not_found, err_bad_param}
use plcstub.TagTree.Ops.{metatag_id}
use plcstub.TagTree.Listing.{listing}
use plcstub.Api.Access.{cast, read_started, read_completed, write_started, write_completed}
use plcstub.Api.Attrib.{Scan, bad_param, attributes, strtok, scan}
use plcstub.Session.{
  Call, Result, int, value, create, destroy, lock, unlock, status, unregister, get, set, read,
  write, register,
}
use plcstub.Session.Spec.{
  Spec, Action, spec, find_tag, replace_tag, drop_tag, listed, metatag_of, on_tag, add_tag,
  remove_tag, new_tag, timed, get_action, set_action, status_action, notify_action, register_action,
}
use plcstub.Session.Calm.{scalar, byte_array, Suits}
use plcstub.Session.Returns.{
  IsCalmTag, AreCalm, AreCalm-weaken, AreCalm-find, AreCalm-replace, AreCalm-drop, AreCalm-append,
  id_after-done, Returns, status-Returns, notify-Returns, register-Returns, get-Returns,
  set-Returns,
}

-- The attribute string is read to its end.
abbrev pub IsParsed : Outcome Scan → Type 0
IsParsed (done found) = Unit
IsParsed _ = ⊥

-- Calls that hold no mutex, use no negative offset and read the metatag byte by byte.
abbrev pub IsCalm : Call → Type 0
IsCalm (create attrib timeout) = IsParsed (scan (strtok [] attrib) none)
IsCalm (lock id) = ⊥
IsCalm (unlock id) = ⊥
IsCalm (get a id offset) = (pos 0 ≤ℤ offset) × Suits a id
IsCalm (set a id offset v) = (pos 0 ≤ℤ offset) × Suits a id
IsCalm _ = Unit

abbrev pub AreCalmCalls : List Call → Type 0
AreCalmCalls [] = Unit
AreCalmCalls (c ∷ cs) = IsCalm c × AreCalmCalls cs

-- The outcome is a return, and the tags are calm after it.
abbrev ReturnsCalm : ℕ → Outcome (Result × Spec) → Type 0
ReturnsCalm m o = (r : Result) × (σ' : Spec) × (o ≡ done (r, σ')) × AreCalm m σ'.tags

module _ (m : ℕ) (two : 2 ≤ m) where
  metatag-calm : (ns : List Node) → IsCalmTag (metatag_of ns)
  unfolding metatag_of
  metatag-calm ns =
      (refl, byte_array (length (listing ns) % 2 ^ 16) refl (omega arith) (omega arith) refl)

  listed-calm : (id : ℤ) (ns : List Node) → AreCalm m ns → AreCalm m (listed id ns)
  unfolding listed metatag_of
  listed-calm id ns c = elim (Bool-cases (id ==ℤ metatag_id)) [
    | inr other ↦ rw other c
    | inl meta ↦ elim (Option-cases (find_tag id ns)) [
      | inl absent ↦ rw (meta, absent) (metatag-calm ns, omega arith, c)
      | inr (n, there) ↦ rw (meta, there) c
    ]
  ]

  on_tag-Returns :
      (id : ℤ) (absent : Result) (act : Action) (σ : Spec)
      → AreCalm m σ.tags
      → Returns act id
      → ReturnsCalm (m + 1) (on_tag id absent act σ)
  unfolding on_tag
  on_tag-Returns id absent act σ c acts =
      let c' = listed-calm id σ.tags c in
      elim (Option-cases (find_tag id (listed id σ.tags))) [
        | inl gone ↦ (
          absent,
          record σ { tags = listed id σ.tags },
          rw (on_tag, gone),
          AreCalm-weaken m (listed id σ.tags) c',
        )
        | inr (n, there) ↦
            let (calm, named, lt) = AreCalm-find m id (listed id σ.tags) n c' there in
            let (r, x, es, runs, calm', same) = acts n σ.events calm named in
            (
              r,
              record { tags = replace_tag id x (listed id σ.tags); events = es },
              rw (on_tag, there, runs),
              AreCalm-weaken m (replace_tag id x (listed id σ.tags))
                  (AreCalm-replace m id x (listed id σ.tags) c' calm' (rw same lt)),
            )
      ]

  remove-Returns : (id : ℤ) (σ : Spec) → AreCalm m σ.tags → ReturnsCalm (m + 1) (remove_tag id σ)
  unfolding remove_tag
  remove-Returns id σ c = elim (Bool-cases (id ==ℤ metatag_id)) [
    | inl meta ↦ (int status_ok, σ, rw meta, AreCalm-weaken m σ.tags c)
    | inr other ↦ elim (Option-cases (find_tag id σ.tags)) [
      | inl gone ↦ (int err_not_found, σ, rw (other, gone), AreCalm-weaken m σ.tags c)
      | inr (n, there) ↦
          let (calm, named, lt) = AreCalm-find m id σ.tags n c there in
          (
            int status_ok,
            record σ { tags = drop_tag id σ.tags },
            rw (other, there, calm.0),
            AreCalm-weaken m (drop_tag id σ.tags) (AreCalm-drop m id σ.tags c),
          )
    ]
  ]

  add-Returns :
      (name : Bytes) (σ : Spec)
      → AreCalm m σ.tags
      → m < 2 ^ 31
      → ReturnsCalm (m + 1) (add_tag name σ)
  unfolding add_tag type_to_enum
  add-Returns name σ c small =
      let (id, next, lt) = id_after-done m σ.tags c two small in
      let ns : List Node = drop_tag metatag_id σ.tags ++ new_tag name id ∷ [] in
      let calm : AreCalm (m + 1) ns =
        AreCalm-append (m + 1) (drop_tag metatag_id σ.tags) (new_tag name id)
          (AreCalm-weaken m (drop_tag metatag_id σ.tags) (AreCalm-drop m metatag_id σ.tags c))
          (refl, scalar refl (omega arith)) lt in
      elim (Option-cases (find_tag metatag_id σ.tags)) [
        | inl gone ↦ (int id, record σ { tags = ns }, rw (next, gone), calm)
        | inr (n, there) ↦
            let (free, named, lt') = AreCalm-find m metatag_id σ.tags n c there in
            (int id, record σ { tags = ns }, rw (next, there, free.0), calm)
      ]

  create-Returns :
      (fb : ℕ → ℤ → ℕ) (attrib : Bytes) (timeout : ℤ) (o : Outcome Scan) (σ : Spec)
      → scan (strtok [] attrib) none ≡ o
      → IsParsed o
      → AreCalm m σ.tags
      → m < 2 ^ 31
      → ReturnsCalm (m + 1) (spec fb (create attrib timeout) σ)
  unfolding spec
  create-Returns fb attrib timeout (done bad_param) σ found parsed c small =
      (int err_bad_param, σ, rw found, AreCalm-weaken m σ.tags c)
  create-Returns fb attrib timeout (done (attributes none)) σ found parsed c small =
      (int err_bad_param, σ, rw found, AreCalm-weaken m σ.tags c)
  create-Returns fb attrib timeout (done (attributes (some name))) σ found parsed c small =
      rw found (add-Returns name σ c small)
  create-Returns fb attrib timeout exit σ found parsed c small = absurd parsed
  create-Returns fb attrib timeout blocked σ found parsed c small = absurd parsed
  create-Returns fb attrib timeout (fault f) σ found parsed c small = absurd parsed

  timed-Returns :
      (timeout : ℤ) (f : Spec → Outcome (Result × Spec)) (σ : Spec)
      → AreCalm m σ.tags
      → ReturnsCalm (m + 1) (f σ)
      → ReturnsCalm (m + 1) (timed timeout f σ)
  timed-Returns timeout f σ c returns = elim (Bool-cases (ltb_ℤ timeout (pos 0))) [
    | inl early ↦ rw early (int err_bad_param, σ, refl, AreCalm-weaken m σ.tags c)
    | inr late ↦ rw late returns
  ]

  pub spec-Returns :
      (fb : ℕ → ℤ → ℕ) (c : Call) (σ : Spec)
      → AreCalm m σ.tags
      → m < 2 ^ 31
      → IsCalm c
      → ReturnsCalm (m + 1) (spec fb c σ)
  unfolding spec
  spec-Returns fb (create attrib timeout) σ c small calm =
      create-Returns fb attrib timeout (scan (strtok [] attrib) none) σ refl calm c small
  spec-Returns fb (destroy id) σ c small calm = remove-Returns id σ c
  spec-Returns fb (lock id) σ c small calm = absurd calm
  spec-Returns fb (unlock id) σ c small calm = absurd calm
  spec-Returns fb (status id) σ c small calm =
      on_tag-Returns id (int err_not_found) status_action σ c (status-Returns id)
  spec-Returns fb (unregister id) σ c small calm =
      on_tag-Returns id (int err_not_found) (register_action none) σ c (register-Returns id none)
  spec-Returns fb (get a id offset) σ c small calm =
      on_tag-Returns id (value (cast fb a err_not_found)) (get_action fb a id offset) σ c
        (get-Returns fb a id offset calm.0 calm.1)
  spec-Returns fb (set a id offset v) σ c small calm =
      on_tag-Returns id (int err_not_found) (set_action a id offset v) σ c
        (set-Returns a id offset v calm.0 calm.1)
  spec-Returns fb (read id timeout) σ c small calm =
      timed-Returns timeout
        (on_tag id (int err_not_found) (notify_action id read_started read_completed)) σ c
        (on_tag-Returns id (int err_not_found) (notify_action id read_started read_completed) σ c
          (notify-Returns id read_started read_completed))
  spec-Returns fb (write id timeout) σ c small calm =
      timed-Returns timeout
        (on_tag id (int err_not_found) (notify_action id write_started write_completed)) σ c
        (on_tag-Returns id (int err_not_found) (notify_action id write_started write_completed) σ c
          (notify-Returns id write_started write_completed))
  spec-Returns fb (register id cb) σ c small calm =
      on_tag-Returns id (int err_not_found) (register_action cb) σ c (register-Returns id cb)
