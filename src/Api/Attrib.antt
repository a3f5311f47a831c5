-- ===== src/Api/Attrib.antt =====
-- The attribute string of `plc_tag_create` in src/plcstub.c: its cut at '&' by `strtok_r`, the cut
-- of each piece at the first '=', and the loop over the pieces.
pub mod Laws
use plcstub.Base.{
  ℕ, Bool, true, false, Option, none, some, List, [], ◌∷◌, ◌++◌, ◌==◌, if◌then◌else◌, codes,
  eq_bytes,
}
use plcstub.Bytes.{Bytes}
use plcstub.Outcome.{Outcome, done, fault, null_pointer}

-- A piece without characters is skipped.
abbrev pub flush : Bytes → List Bytes → List Bytes
flush [] rest = rest
flush (c ∷ cur) rest = (c ∷ cur) ∷ rest

-- The pieces that `strtok_r` returns, in order; `cur` is what has been read of the current one.
unfoldable pub strtok : Bytes → Bytes → List Bytes
strtok cur [] = flush cur []
strtok cur (c ∷ s) =
    let next = flush cur (strtok [] s) in
    let same = strtok (cur ++ c ∷ []) s in if c == b'&' then next else same

-- `strchr(kv, '=')`: what stands before and behind the first '='
unfoldable pub cut : Bytes → Option (Bytes × Bytes)
cut [] = none
cut (c ∷ s) =
    let rest = cut s in
    if c == b'='
    then some ([], s)
    else elim rest [ none ↦ none | some (key, val) ↦ some (c ∷ key, val) ]

-- How the loop ends: by `goto done` with PLCTAG_ERR_BAD_PARAM, or with the last `name` seen.
pub data Scan : Type 0 where
  bad_param : Scan
  attributes : Option Bytes → Scan

-- A piece without '=' that is "protocol" passes the check, and `*val` is a write through NULL.
-- The attributes `elem_size` and `elem_count` are only logged, and any other is ignored.
unfoldable pub scan : List Bytes → Option Bytes → Outcome Scan
unfolding cut
scan [] name = done (attributes name)
scan (kv ∷ rest) name = elim (cut kv) [
  | none ↦ if eq_bytes kv (codes "protocol") then fault null_pointer else done bad_param
  | some (key, val) ↦ scan rest (if eq_bytes key (codes "name") then some val else name)
]
