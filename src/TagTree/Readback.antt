-- ===== src/TagTree/Readback.antt =====
-- A reader of the metatag's contents, as a client with `struct metatag_t` of include/plcstub.h has
-- one, and what it finds.
use plcstub.Base.{
  ℕ, zero, suc, ◌+◌, ◌%◌, ◌^◌, ◌≤◌, ◌<◌, ◌≡◌, refl, ap, ◌∙◌, List, [], ◌∷◌, ◌++◌, map, arith,
  length, take, drop, take-append, drop-append, ℤ, pos, negsuc,
}
use mathlib.Core.List.{append_assoc}
use plcstub.Types.{u16, type_size_bytes}
use plcstub.Bytes.{Bytes, encode, decode}
use plcstub.Env.Heap.{Node}
use plcstub.TagTree.Metatag.{to_u32, first_dim, name_length, meta_entry}
use plcstub.TagTree.Listing.{listing, AreShort}

-- What an entry says of a tag: its ID, the size of its type, its first dimension and its name.
pub record Row : Type 0 where
  pub row_id : ℕ
  pub elem_size : ℕ
  pub dim : ℕ
  pub row_name : Bytes

abbrev pub row : Node → Row
row n = record {
  row_id = to_u32 n.tag_id;
  elem_size = type_size_bytes n.type % 2 ^ 16;
  dim = first_dim n.type % 2 ^ 32;
  row_name = n.name;
}

abbrev pub read_row : Bytes → Row
read_row d = record {
  row_id = decode (take 4 d);
  elem_size = decode (take 2 (drop 6 d));
  dim = decode (take 4 (drop 8 d));
  row_name = take (decode (take 2 (drop 20 d))) (drop 22 d);
}

-- Reads at most `k` entries, to the end of the buffer.
unfoldable pub read_rows : ℕ → Bytes → List Row
read_rows zero d = []
read_rows (suc k) [] = []
read_rows (suc k) (b ∷ d) =
    read_row (b ∷ d) ∷ read_rows k (drop (22 + decode (take 2 (drop 20 (b ∷ d)))) (b ∷ d))

decode-2 : (v : ℕ) → decode (encode 2 v) ≡ v % 2 ^ 16
unfolding decode encode
decode-2 v = omega arith

decode-4 : (v : ℕ) → decode (encode 4 v) ≡ v % 2 ^ 32
unfolding decode encode
decode-4 v = omega arith

to_u32-bound : (i : ℤ) → to_u32 i % 2 ^ 32 ≡ to_u32 i
to_u32-bound (pos n) = omega arith
to_u32-bound (negsuc n) = omega arith

take_all : (xs : Bytes) → take (length xs) xs ≡ xs
take_all [] = refl
take_all (x ∷ xs) = ap (λ l. x ∷ l) (take_all xs)

drop-drop : (m n : ℕ) (xs : Bytes) → drop (m + n) xs ≡ drop n (drop m xs)
drop-drop zero n xs = ap (λ k. drop k xs) {y = n} (omega arith)
drop-drop (suc m) zero [] = ap (λ k. drop {A = ℕ} k []) {y = suc m} (omega arith)
drop-drop (suc m) (suc n) [] = ap (λ k. drop {A = ℕ} k []) {y = suc (m + suc n)} (omega arith)
drop-drop (suc m) n (x ∷ xs) =
    ap (λ k. drop k (x ∷ xs)) {y = suc (m + n)} (omega arith) ∙ drop-drop m n xs

-- The fields of an entry, behind which anything may stand.
module _ (n : Node) (rest : Bytes) where
  id_read : decode (take 4 (meta_entry n ++ rest)) ≡ to_u32 n.tag_id
  unfolding meta_entry encode
  id_read = decode-4 (to_u32 n.tag_id) ∙ to_u32-bound n.tag_id

  size_read : decode (take 2 (drop 6 (meta_entry n ++ rest))) ≡ type_size_bytes n.type % 2 ^ 16
  unfolding meta_entry encode
  size_read = decode-2 (type_size_bytes n.type)

  dim_read : decode (take 4 (drop 8 (meta_entry n ++ rest))) ≡ first_dim n.type % 2 ^ 32
  unfolding meta_entry encode
  dim_read = decode-4 (first_dim n.type)

  length_read : decode (take 2 (drop 20 (meta_entry n ++ rest))) ≡ name_length n
  unfolding meta_entry encode
  length_read = decode-2 (name_length n) ∙ omega arith

  body : drop 22 (meta_entry n ++ rest) ≡ take (name_length n) n.name ++ rest
  unfolding meta_entry encode
  body = refl

  first_row :
      (k : ℕ)
      → read_rows (suc k) (meta_entry n ++ rest)
        ≡ read_row (meta_entry n ++ rest)
          ∷ read_rows k
              (drop (22 + decode (take 2 (drop 20 (meta_entry n ++ rest)))) (meta_entry n ++ rest))
  unfolding read_rows meta_entry encode
  first_row k = refl

  module _ (short : length n.name < u16) where
    name_read : take (name_length n) n.name ≡ n.name
    name_read = ap (λ l. take l n.name) (omega (arith, short)) ∙ take_all n.name

    row_read : read_row (meta_entry n ++ rest) ≡ row n
    row_read =
        let l : name_length n ≡ length n.name = omega (arith, short) in
        rw (id_read, size_read, dim_read, length_read, body, name_read, l, take-append n.name rest)

    rest_read : drop (22 + name_length n) (meta_entry n ++ rest) ≡ rest
    rest_read =
        let l : name_length n ≡ length n.name = omega (arith, short) in
        drop-drop 22 (name_length n) (meta_entry n ++ rest)
        ∙ rw (body, name_read, l) (drop-append n.name rest)

-- Where no name is longer than 16 bits can say, a reader of the metatag's contents finds for each
-- node, in order, its ID, the size of its type modulo 2^16, its first dimension modulo 2^32 and its
-- name, and then the end.
pub read_rows-listing :
    (k : ℕ) (ns : List Node) → AreShort ns → length ns ≤ k → read_rows k (listing ns) ≡ map row ns
unfolding read_rows listing
read_rows-listing zero [] short le = refl
read_rows-listing (suc k) [] short le = refl
read_rows-listing zero (n ∷ ns) short le = absurd (omega arith)
read_rows-listing (suc k) (n ∷ ns) short le = rw (
  first_row n (listing ns) k,
  row_read n (listing ns) short.0,
  length_read n (listing ns),
  rest_read n (listing ns) short.0,
  read_rows-listing k ns short.1 (omega arith),
)

-- The same where anything stands behind the listing, for a reader who knows the number of entries.
pub read_rows-prefix :
    (ns : List Node) (rest : Bytes)
    → AreShort ns
    → read_rows (length ns) (listing ns ++ rest) ≡ map row ns
unfolding read_rows listing
read_rows-prefix [] rest short = refl
read_rows-prefix (n ∷ ns) rest short =
    let behind : Bytes = listing ns ++ rest in
    ap (read_rows (suc (length ns))) (append_assoc (meta_entry n) (listing ns) rest)
    ∙ rw (
      first_row n behind (length ns),
      row_read n behind short.0,
      length_read n behind,
      rest_read n behind short.0,
      read_rows-prefix ns rest short.1,
    )
