-- ===== src/Session/Spec.antt =====
-- What the calls promise, over the tags alone: a list of tags in the order of their IDs, and the
-- callbacks called so far. There are no addresses, no heap, no tree and no counter here.
use plcstub.Base.{
  ℕ, true, false, Option, none, some, List, [], ◌∷◌, ◌++◌, ℤ, pos, ◌==ℤ◌, suc_ℤ, ltb_ℤ,
  if◌then◌else◌, length, ◌%◌, replicate,
}
use plcstub.Types.{word, array, u16, type_to_enum}
use plcstub.Bytes.{Bytes}
use plcstub.Outcome.{Outcome, done, blocked, fault, overflow, not_locked, ◌>>=◌}
use plcstub.Env.Heap.{Node}
use plcstub.Status.{status_ok, err_not_found, err_bad_param}
use plcstub.TagTree.State.{Event}
use plcstub.TagTree.Ops.{metatag_id, meta_name, int_max}
use plcstub.TagTree.Listing.{listing}
use plcstub.Api.Access.{
  Accessor, width, cast, is_array, getter_cb, setter_cb, notify, read_started, read_completed,
  write_started, write_completed, aborted,
}
use plcstub.Api.Access.Locked.{resolve}
use plcstub.Api.Attrib.{bad_param, attributes, strtok, scan}
use plcstub.Session.{
  Call, Result, int, value, create, destroy, lock, unlock, status, unregister, get, set, read,
  write, register,
}

pub record Spec : Type 0 where
  pub tags : List Node
  pub events : List Event

unfoldable pub find_tag : ℤ → List Node → Option Node
find_tag i [] = none
find_tag i (n ∷ ns) = if i ==ℤ n.tag_id then some n else find_tag i ns

unfoldable pub replace_tag : ℤ → Node → List Node → List Node
replace_tag i m [] = []
replace_tag i m (n ∷ ns) =
    let rest = replace_tag i m ns in if i ==ℤ n.tag_id then m ∷ ns else n ∷ rest

unfoldable pub drop_tag : ℤ → List Node → List Node
drop_tag i [] = []
drop_tag i (n ∷ ns) = let rest = drop_tag i ns in if i ==ℤ n.tag_id then rest else n ∷ rest

-- The ID after the last one; 2 if there is none.
unfoldable pub id_after : List Node → Outcome ℤ
id_after [] = done (pos 2)
id_after (n ∷ []) = if n.tag_id ==ℤ int_max then fault overflow else done (suc_ℤ n.tag_id)
id_after (n ∷ m ∷ ns) = id_after (m ∷ ns)

-- What an operation does to a tag and to the events.
abbrev pub Action : Type 0
Action = Node → List Event → Outcome (Result × Node × List Event)

abbrev pub when_free : Action → Action
when_free act n es = if n.locked then blocked else act n es

-- The events of an access, of a read or of a write.
abbrev pub both : ℤ → ℤ → ℤ → Node → List Event → List Event
both id first second n es =
    notify n.cb true id second status_ok (notify n.cb true id first status_ok es)

abbrev pub refused : ℤ → ℤ → Node → List Event → List Event
refused id started n es =
    let es' = notify n.cb true id started status_ok es in
    if is_array (type_to_enum n.type) then es' else notify n.cb true id aborted err_bad_param es'

unfoldable pub get_action : (ℕ → ℤ → ℕ) → Accessor → ℤ → ℤ → Action
get_action fb a id offset = when_free λ n es. elim (resolve n.type offset) [
  | none ↦ done (value (cast fb a err_bad_param), n, refused id read_started n es)
  | some off ↦ getter_cb (width a) off n.contents >>= λ v.
      done (value v, n, both id read_started read_completed n es)
]

unfoldable pub set_action : Accessor → ℤ → ℤ → ℕ → Action
set_action a id offset v = when_free λ n es. elim (resolve n.type offset) [
  | none ↦ done (int err_bad_param, n, refused id write_started n es)
  | some off ↦ setter_cb (width a) off v n.contents >>= λ d.
      done (int status_ok, record n { contents = d }, both id write_started write_completed n es)
]

unfoldable pub lock_action : Action
lock_action = when_free λ n es. done (int status_ok, record n { locked = true }, es)

unfoldable pub unlock_action : Action
unlock_action n es =
    if n.locked then done (int status_ok, record n { locked = false }, es) else fault not_locked

unfoldable pub status_action : Action
status_action n es = done (int status_ok, n, es)

unfoldable pub notify_action : ℤ → ℤ → ℤ → Action
notify_action id first second = when_free λ n es. done (int status_ok, n, both id first second n es)

unfoldable pub register_action : Option ℕ → Action
register_action cb = when_free λ n es. done (int status_ok, record n { cb = cb }, es)

-- The metatag, over the tags that it lists.
unfoldable pub metatag_of : List Node → Node
metatag_of ns = record {
  tag_id = metatag_id;
  name = meta_name;
  cb = none;
  locked = false;
  type = array (length (listing ns) % u16) (word 2);
  contents = listing ns;
}

-- Who asks for the metatag gets one.
unfoldable pub listed : ℤ → List Node → List Node
listed id ns =
    if id ==ℤ metatag_id
    then elim (find_tag id ns) [ none ↦ metatag_of ns ∷ ns | some _ ↦ ns ]
    else ns

-- Applies an action to the tag with the ID; without one the call returns `missing`.
unfoldable pub on_tag : ℤ → Result → Action → Spec → Outcome (Result × Spec)
on_tag id missing act σ = elim (find_tag id (listed id σ.tags)) [
  | none ↦ done (missing, record σ { tags = listed id σ.tags })
  | some n ↦ act n σ.events >>= λ (r, m, es).
      done (r, record { tags = replace_tag id m (listed id σ.tags); events = es })
]

-- The tag that a new ID and a name get.
abbrev pub new_tag : Bytes → ℤ → Node
new_tag name id = record {
  tag_id = id;
  name = name;
  cb = none;
  locked = false;
  type = word 6;
  contents = replicate 8 0x42;
}

-- A new tag goes to the end, and the metatag goes.
unfoldable pub add_tag : Bytes → Spec → Outcome (Result × Spec)
add_tag name σ = id_after σ.tags >>= λ id.
    let new =
      done (int id, record σ { tags = drop_tag metatag_id σ.tags ++ new_tag name id ∷ [] }) in
    elim (find_tag metatag_id σ.tags) [ none ↦ new | some m ↦ if m.locked then blocked else new ]

unfoldable pub remove_tag : ℤ → Spec → Outcome (Result × Spec)
remove_tag id σ = if id ==ℤ metatag_id then done (int status_ok, σ) else elim (find_tag id σ.tags) [
  | none ↦ done (int err_not_found, σ)
  | some n ↦
      if n.locked then blocked else done (int status_ok, record σ { tags = drop_tag id σ.tags })
]

-- A timeout must not be negative.
abbrev pub timed : ℤ → (Spec → Outcome (Result × Spec)) → Spec → Outcome (Result × Spec)
timed timeout f σ = if ltb_ℤ timeout (pos 0) then done (int err_bad_param, σ) else f σ

abbrev not_found : Result
not_found = int err_not_found

unfoldable pub spec : (ℕ → ℤ → ℕ) → Call → Spec → Outcome (Result × Spec)
spec fb (create attrib timeout) σ = scan (strtok [] attrib) none >>= λ found. elim found [
  | bad_param ↦ done (int err_bad_param, σ)
  | attributes none ↦ done (int err_bad_param, σ)
  | attributes (some name) ↦ add_tag name σ
]
spec fb (destroy id) σ = remove_tag id σ
spec fb (lock id) σ = on_tag id not_found lock_action σ
spec fb (unlock id) σ = on_tag id not_found unlock_action σ
spec fb (status id) σ = on_tag id not_found status_action σ
spec fb (unregister id) σ = on_tag id not_found (register_action none) σ
spec fb (get a id offset) σ =
    on_tag id (value (cast fb a err_not_found)) (get_action fb a id offset) σ
spec fb (set a id offset v) σ = on_tag id not_found (set_action a id offset v) σ
spec fb (read id timeout) σ =
    timed timeout (on_tag id not_found (notify_action id read_started read_completed)) σ
spec fb (write id timeout) σ =
    timed timeout (on_tag id not_found (notify_action id write_started write_completed)) σ
spec fb (register id cb) σ = on_tag id not_found (register_action cb) σ

unfoldable pub spec_session : (ℕ → ℤ → ℕ) → List Call → Spec → Outcome (List Result × Spec)
spec_session fb [] σ = done ([], σ)
spec_session fb (c ∷ cs) σ =
    spec fb c σ >>= λ (r, σ'). spec_session fb cs σ' >>= λ (rs, σ''). done (r ∷ rs, σ'')
