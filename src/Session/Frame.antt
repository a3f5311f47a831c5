-- ===== src/Session/Frame.antt =====
-- What changes of the specified tags do to a tag with another ID.
use plcstub.Base.{ℕ, ◌≡◌, refl, false, some, List, [], ◌∷◌, ◌++◌, arith, ℤ, ◌==ℤ◌, eq_of_==ℤ}
use plcstub.Outcome.{done}
use plcstub.Env.Heap.{Node}
use plcstub.TagTree.State.{Event}
use plcstub.TagTree.Ops.{metatag_id}
use plcstub.Api.Access.{Accessor}
use plcstub.Session.{Result}
use plcstub.Session.Spec.{
  Action, find_tag, replace_tag, drop_tag, listed, metatag_of, get_action, set_action, lock_action,
  unlock_action, status_action, notify_action, register_action,
}

pub find_tag-id : (i : ℤ) (ns : List Node) (n : Node) → find_tag i ns ≡ some n → n.tag_id ≡ i
unfolding find_tag
find_tag-id i [] n f = absurd (ground arith)
find_tag-id i (m ∷ ns) n f = ground (arith, find_tag-id i ns n, eq_of_==ℤ i m.tag_id)

pub find_tag-append :
    (i : ℤ) (ns ms : List Node) (n : Node) → find_tag i ns ≡ some n → find_tag i (ns ++ ms) ≡ some n
unfolding find_tag
find_tag-append i [] ms n f = absurd (ground arith)
find_tag-append i (m ∷ ns) ms n f = ground (arith, find_tag-append i ns ms n)

pub find_tag-drop :
    (i j : ℤ) (ns : List Node) → (i ==ℤ j) ≡ false → find_tag i (drop_tag j ns) ≡ find_tag i ns
unfolding find_tag drop_tag
find_tag-drop i j [] other = refl
find_tag-drop i j (m ∷ ns) other =
    ground (arith, find_tag-drop i j ns other, eq_of_==ℤ i m.tag_id, eq_of_==ℤ j m.tag_id)

pub find_tag-replace :
    (i j : ℤ) (m : Node) (ns : List Node)
    → (i ==ℤ j) ≡ false
    → m.tag_id ≡ j
    → find_tag i (replace_tag j m ns) ≡ find_tag i ns
unfolding find_tag replace_tag
find_tag-replace i j m [] other named = refl
find_tag-replace i j m (n ∷ ns) other named =
    ground
      (arith, find_tag-replace i j m ns other named, eq_of_==ℤ i n.tag_id, eq_of_==ℤ j n.tag_id)

pub find_tag-listed :
    (i j : ℤ) (ns : List Node)
    → (i ==ℤ metatag_id) ≡ false
    → find_tag i (listed j ns) ≡ find_tag i ns
unfolding find_tag listed metatag_of
find_tag-listed i j ns plain = ground arith

-- An action keeps the ID of the tag.
abbrev pub KeepsId : Action → Type 0
KeepsId act =
    (n : Node) (es : List Event) (r : Result) (m : Node) (es' : List Event)
    → act n es ≡ done (r, m, es')
    → m.tag_id ≡ n.tag_id

pub lock-KeepsId : KeepsId lock_action
unfolding lock_action
lock-KeepsId n es r m es' e = ground arith

pub unlock-KeepsId : KeepsId unlock_action
unfolding unlock_action
unlock-KeepsId n es r m es' e = ground arith

pub status-KeepsId : KeepsId status_action
unfolding status_action
status-KeepsId n es r m es' e = ground arith

pub register-KeepsId : (cb : _) → KeepsId (register_action cb)
unfolding register_action
register-KeepsId cb n es r m es' e = ground arith

pub notify-KeepsId : (id first second : ℤ) → KeepsId (notify_action id first second)
unfolding notify_action
notify-KeepsId id first second n es r m es' e = ground arith

pub get-KeepsId :
    (fb : ℕ → ℤ → ℕ) (a : Accessor) (id offset : ℤ) → KeepsId (get_action fb a id offset)
unfolding get_action
get-KeepsId fb a id offset n es r m es' e = ground arith

pub set-KeepsId : (a : Accessor) (id offset : ℤ) (v : ℕ) → KeepsId (set_action a id offset v)
unfolding set_action
set-KeepsId a id offset v n es r m es' e = ground arith
