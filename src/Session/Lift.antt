-- ===== src/Session/Lift.antt =====
-- From what a call does to a node to what it does to the tags.
use plcstub.Base.{◌≡◌, refl, some, Bool-cases, inl, inr, List, arith, ℤ, pos, ◌==◌, if◌then◌else◌}
use plcstub.Outcome.{Outcome, done, exit, blocked, fault, Fault}
use plcstub.Env.Rb.{Ptr, Entry, RbTree}
use plcstub.Env.Heap.{Node, Heap, get}
use plcstub.TagTree.State.{State, Event}
use plcstub.TagTree.Order.{find_id}
use plcstub.TagTree.Sound.{Live-mono}
use plcstub.TagTree.Metanode.{nodes_at}
use plcstub.Session.{Result}
use plcstub.Session.Spec.{Spec, Action, find_tag, replace_tag, listed, on_tag}
use plcstub.Session.View.{view, find_tag-some, nodes-replace}
use plcstub.Session.Node.{Matches, returns, blocks, faults}
use plcstub.Session.Invariant.{IsInvariant, AreShort-found, AreShort-replace}

-- A call ends as the specification says: it returns with the same result, in a state that stands for
-- the specified tags and events and in which the invariant holds, or it ends in the same way without
-- returning.
pub data Agrees {T A : Type 0} (rb : RbTree T) (o : Outcome (A × State T)) (o' : Outcome (A × Spec))
    : Type 0 where
  returns_in :
      (a : A) (s' : State T)
      → o ≡ done (a, s')
      → o' ≡ done (a, view rb s')
      → IsInvariant rb s'
      → Agrees rb o o'
  exits_too : o ≡ exit → o' ≡ exit → Agrees rb o o'
  blocks_too : o ≡ blocked → o' ≡ blocked → Agrees rb o o'
  faults_too : (f : Fault) → o ≡ fault f → o' ≡ fault f → Agrees rb o o'

module _ {T : Type 0} (rb : RbTree T) (s : State T) (inv : IsInvariant rb s) (id : ℤ) (e : Entry)
    (n : Node) (found : find_id id (rb.elements s.tree) ≡ some e)
    (at : get e.node s.heap ≡ some n) where
  tag_there : find_tag id (nodes_at s.heap (rb.elements s.tree)) ≡ some n
  tag_there = find_tag-some s.heap id (rb.elements s.tree) e n inv.sound.live found at

  module _ (m : Node) (es : List Event) (g : Heap) (same_id : m.tag_id ≡ n.tag_id)
      (same_name : m.name ≡ n.name)
      (same : (q : Ptr) → get q g ≡ (if q == e.node then some m else get q s.heap)) where
    abbrev stepped : State T
    stepped = record s { heap = g; events = es }

    nodes_stepped :
        nodes_at g (rb.elements s.tree) ≡ replace_tag id m (nodes_at s.heap (rb.elements s.tree))
    nodes_stepped =
        nodes-replace (pos 0) g s.heap id (rb.elements s.tree) e m inv.sound.ordered inv.sound.live
          found same

    relabel :
        (q : Ptr) (k : Node)
        → get q s.heap ≡ some k
        → (k' : Node) × (get q g ≡ some k') × (k'.tag_id ≡ k.tag_id)
    relabel q k at' = elim (Bool-cases (q == e.node)) [
      | inl hit ↦ (m, ground (arith, same q), ground (arith, at, same_id))
      | inr miss ↦ (k, ground (arith, same q), refl)
    ]

    IsInvariant-stepped : IsInvariant rb stepped
    IsInvariant-stepped = record {
      ready = record { inited = inv.ready.inited; unlocked = inv.ready.unlocked };
      sound = record {
        ordered = inv.sound.ordered;
        nonnull = inv.sound.nonnull;
        live = Live-mono s.heap g (rb.elements s.tree) relabel inv.sound.live;
      };
      ints = inv.ints;
      short = rw nodes_stepped (
          AreShort-replace id m (nodes_at s.heap (rb.elements s.tree)) inv.short (
            rw same_name
              (AreShort-found id (nodes_at s.heap (rb.elements s.tree)) n inv.short tag_there)));
    }

  -- `s` is the state after the lookup, and `σ` what the call began with.
  pub on_tag-Agrees :
      (σ : Spec) (missing : Result) (act : Action) (o : Outcome (Result × State T))
      → listed id σ.tags ≡ nodes_at s.heap (rb.elements s.tree)
      → σ.events ≡ s.events
      → Matches s e.node n o (act n s.events)
      → Agrees rb o (on_tag id missing act σ)
  unfolding on_tag
  on_tag-Agrees σ missing act o tags events (returns r m es g ends acts same_id same_name same) =
      returns_in r (stepped m es g same_id same_name same) ends
        (rw (
          on_tag,
          tags,
          tag_there,
          events,
          acts,
          tags,
          nodes_stepped m es g same_id same_name same,
        ))
        (IsInvariant-stepped m es g same_id same_name same)
  on_tag-Agrees σ missing act o tags events (blocks ends acts) =
      blocks_too ends (rw (on_tag, tags, tag_there, events, acts))
  on_tag-Agrees σ missing act o tags events (faults f ends acts) =
      faults_too f ends (rw (on_tag, tags, tag_there, events, acts))
