-- ===== src/Api/Attrib/Laws.antt =====
-- The attribute strings of `plc_tag_create` that are lists of pairs, and what the loop makes of them.
use mathlib.Core.List.{append_assoc, append-nil}
use plcstub.Base.{
  ℕ, ◌≡◌, ◌≢◌, refl, ap, ◌∙◌, false, Option, some, List, [], ◌∷◌, ◌++◌, arith, ◌==◌, if◌then◌else◌,
  codes, eq_bytes,
}
use plcstub.Bytes.{Bytes}
use plcstub.Outcome.{done, fault, null_pointer}
use plcstub.Api.Attrib.{attributes, flush, strtok, cut, scan}

-- The text has no such character.
abbrev pub Lacks : ℕ → Bytes → Type 0
Lacks c [] = Unit
Lacks c (x ∷ xs) = (x ≢ c) × Lacks c xs

-- `key=value`
abbrev pub pair : Bytes × Bytes → Bytes
pair (k, v) = k ++ b'=' ∷ v

-- The pairs joined by '&'.
abbrev pub join : List (Bytes × Bytes) → Bytes
join [] = []
join (kv ∷ []) = pair kv
join (kv ∷ kv' ∷ rest) = pair kv ++ b'&' ∷ join (kv' ∷ rest)

-- No key holds a separator, and no value a '&'.
abbrev pub AreAttributes : List (Bytes × Bytes) → Type 0
AreAttributes [] = Unit
AreAttributes ((k, v) ∷ rest) = Lacks b'=' k × Lacks b'&' k × Lacks b'&' v × AreAttributes rest

-- The value of the last pair whose key is `name`, or the given one.
unfoldable pub last_name : List (Bytes × Bytes) → Option Bytes → Option Bytes
last_name [] name = name
last_name ((k, v) ∷ rest) name = last_name rest (if eq_bytes k (codes "name") then some v else name)

Lacks-append : (c : ℕ) (xs ys : Bytes) → Lacks c xs → Lacks c ys → Lacks c (xs ++ ys)
Lacks-append c [] ys h k = k
Lacks-append c (x ∷ xs) ys h k = (h.0, Lacks-append c xs ys h.1 k)

strtok-amp :
    (cur w s : Bytes) → Lacks b'&' w → strtok cur (w ++ b'&' ∷ s) ≡ flush (cur ++ w) (strtok [] s)
unfolding strtok
strtok-amp cur [] s h = rw append-nil
strtok-amp cur (c ∷ w) s h =
    let other : (c == b'&') ≡ false = ground arith in
    rw other (
      strtok-amp (cur ++ c ∷ []) w s h.1
      ∙ ap (λ (l : Bytes). flush l (strtok [] s)) (append_assoc cur (c ∷ []) w))

strtok-end : (cur w : Bytes) → Lacks b'&' w → strtok cur w ≡ flush (cur ++ w) []
unfolding strtok
strtok-end cur [] h = rw append-nil
strtok-end cur (c ∷ w) h =
    let other : (c == b'&') ≡ false = ground arith in
    rw other (
      strtok-end (cur ++ c ∷ []) w h.1
      ∙ ap (λ (l : Bytes). flush l []) (append_assoc cur (c ∷ []) w))

cut-pair : (k v : Bytes) → Lacks b'=' k → cut (k ++ b'=' ∷ v) ≡ some (k, v)
unfolding cut
cut-pair [] v h = refl
cut-pair (c ∷ k) v h =
    let other : (c == b'=') ≡ false = ground arith in rw (other, cut-pair k v h.1)

Lacks-pair : (k v : Bytes) → Lacks b'&' k → Lacks b'&' v → Lacks b'&' (pair (k, v))
Lacks-pair k v h h' = Lacks-append b'&' k (b'=' ∷ v) h (omega arith, h')

flush-pair : (k v : Bytes) (rest : List Bytes) → flush (pair (k, v)) rest ≡ pair (k, v) ∷ rest
flush-pair [] v rest = refl
flush-pair (c ∷ k) v rest = refl

scan-pair :
    (k v : Bytes) (rest : List Bytes) (name : Option Bytes)
    → Lacks b'=' k
    → scan (pair (k, v) ∷ rest) name
      ≡ scan rest (if eq_bytes k (codes "name") then some v else name)
unfolding scan
scan-pair k v rest name h = rw (cut-pair k v h, scan)

-- On a string of attributes the loop ends with the value of the last `name`, if there is one.
pub scan-join :
    (kvs : List (Bytes × Bytes)) (name : Option Bytes)
    → AreAttributes kvs
    → scan (strtok [] (join kvs)) name ≡ done (attributes (last_name kvs name))
unfolding last_name
scan-join [] name h = unfold scan strtok in refl
scan-join ((k, v) ∷ []) name h =
    rw
      (
        strtok-end [] (pair (k, v)) (Lacks-pair k v h.1 h.2),
        flush-pair k v [],
        scan-pair k v [] name h.0,
      )
      (unfold scan in refl)
scan-join ((k, v) ∷ kv' ∷ rest) name h =
    rw
      (
        strtok-amp [] (pair (k, v)) (join (kv' ∷ rest)) (Lacks-pair k v h.1 h.2),
        flush-pair k v (strtok [] (join (kv' ∷ rest))),
        scan-pair k v (strtok [] (join (kv' ∷ rest))) name h.0,
      )
      (scan-join (kv' ∷ rest) (if eq_bytes k (codes "name") then some v else name) h.3)

-- A string whose first piece is "protocol" with no '=' ends in a write through NULL.
pub scan-protocol :
    (s : Bytes) (name : Option Bytes)
    → scan (strtok [] (codes "protocol" ++ b'&' ∷ s)) name ≡ fault null_pointer
scan-protocol s name = rw (strtok-amp [] (codes "protocol") s (omega arith)) (unfold scan in refl)
