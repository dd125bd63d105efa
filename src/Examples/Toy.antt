-- ===== src/Examples/Toy.antt =====
-- Small crates that keep the laws: a hash is the sum of the bytes, 32 times; content is not
-- encrypted, a chunk is one byte of it, and a data map lists the bytes behind a flag. The first two
-- chunks come last.
use mathlib.Core.List.{Permᴰ}
use mathlib.Core.List.Permᴰ
use autonomi_webrtc_direct_p.Prelude.{
  ℕ, ◌+◌, ◌≡◌, refl, sym, ap, ap₂, ◌∙◌, arith, Bool, false, List, [], ◌∷◌, ◌++◌, map, Bytes, Result,
  ok, err, ◌>>=◌, bytes_eq, bytes_eq_refl, eq_of_bytes_eq, if◌then◌else◌, ◌==◌, length,
  length-replicate, replicate, concat, Result-cases, inl, inr, Bool-cases, All, All-perm,
}
use autonomi_webrtc_direct_p.Crates.{Crates, CrateLaws, Arranged, UploadLaws}

pub record ToyMap : Type 0 where
  pub child : Bool
  pub refs : Bytes

abbrev pub sum_from : ℕ → Bytes → ℕ
sum_from acc [] = acc
sum_from acc (b ∷ bs) = sum_from (acc + b) bs

abbrev pub toy_hash : Bytes → Bytes
toy_hash [] = replicate 32 0
toy_hash (b ∷ bs) = replicate 32 (sum_from b bs)

abbrev pub toy_verify : Bytes → Bytes → Result ℕ Bytes
toy_verify name bytes = if bytes_eq (toy_hash bytes) name then ok bytes else err 0

abbrev pub toy_from_slice : Bytes → Result ℕ ToyMap
toy_from_slice [] = err 1
toy_from_slice (flag ∷ refs) = ok (record { child = flag == 1; refs = refs })

abbrev pub toy_to_vec : ToyMap → Result ℕ Bytes
toy_to_vec m = ok ((if m.child then 1 else 0) ∷ m.refs)

abbrev pub fetch_all : Bytes → (Bytes → Result ℕ Bytes) → Result ℕ Bytes
fetch_all [] f = ok []
fetch_all (b ∷ bs) f = do x ← f (replicate 32 b); rest ← fetch_all bs f; ok (x ++ rest)

abbrev pub toy_root : ToyMap → (Bytes → Result ℕ Bytes) → Result ℕ ToyMap
toy_root m f = do bytes ← fetch_all m.refs f; toy_from_slice bytes

abbrev pub single : ℕ → Bytes
single b = b ∷ []

-- 0, 1, 2, 3, 4 come as 2, 3, 4, 0, 1.
abbrev pub defer : {A : Type 0} → List A → List A
defer [] = []
defer (a ∷ []) = a ∷ []
defer (a ∷ b ∷ rest) = rest ++ (a ∷ b ∷ [])

abbrev pub toy : Crates
toy = record {
  Failure = ℕ;
  generic = length;
  DataMap = ToyMap;
  ChunkInfo = ℕ;
  EncryptedChunk = Bytes;
  infos = λ m. m.refs;
  is_child = λ m. m.child;
  dst_hash = λ b. replicate 32 b;
  content = λ bytes. bytes;
  hash = toy_hash;
  verify_chunk = toy_verify;
  encrypt = λ bytes. ok (record { child = false; refs = bytes }, defer (map single bytes));
  decrypt = λ m chunks. ok (concat chunks);
  get_root_data_map = toy_root;
  from_slice = toy_from_slice;
  to_vec = toy_to_vec;
}

pub length-toy_hash : (bytes : Bytes) → length (toy_hash bytes) ≡ 32
length-toy_hash [] = refl
length-toy_hash (b ∷ bs) = length-replicate 32 (sum_from b bs)

pub toy_verify_sound :
    (name bytes chunk : Bytes)
    → toy_verify name bytes ≡ ok chunk
    → (toy_hash bytes ≡ name) × (chunk ≡ bytes)
toy_verify_sound name bytes chunk h = elim (Bool-cases (bytes_eq (toy_hash bytes) name)) [
  | inl same ↦ (eq_of_bytes_eq (toy_hash bytes) name same, ground (arith, same))
  | inr other ↦ absurd (ground (arith, other))
]

fetch_all_first :
    (r : ℕ) (refs x : Bytes) (f : Bytes → Result ℕ Bytes)
    → fetch_all (r ∷ refs) f ≡ ok x
    → (u : Bytes) × (rest : Bytes) × (f (replicate 32 r) ≡ ok u)
      × (fetch_all refs f ≡ ok rest)
      × (x ≡ u ++ rest)
fetch_all_first r refs x f h = elim (Result-cases (f (replicate 32 r))) [
  | inr (e, p) ↦ absurd (ground (arith, p, h))
  | inl (u, p) ↦ elim (Result-cases (fetch_all refs f)) [
    | inr (e, q) ↦ absurd (ground (arith, p, q, h))
    | inl (rest, q) ↦ (u, rest, p, q, ground (arith, p, q, h))
  ]
]

fetch_all_agrees :
    (refs x y : Bytes) (f g : Bytes → Result ℕ Bytes)
    → ((name a b : Bytes) → f name ≡ ok a → g name ≡ ok b → a ≡ b)
    → fetch_all refs f ≡ ok x
    → fetch_all refs g ≡ ok y
    → x ≡ y
fetch_all_agrees [] x y f g agree p q = cc (p, q)
fetch_all_agrees (r ∷ refs) x y f g agree p q =
    let (u, s, fu, fs, ex) = fetch_all_first r refs x f p in
    let (v, t, gv, gt, ey) = fetch_all_first r refs y g q in
    ex
    ∙ ap₂ ◌++◌ (agree (replicate 32 r) u v fu gv) (fetch_all_agrees refs s t f g agree fs gt)
    ∙ sym ey

pub toy_root_agrees :
    (m r s : ToyMap) (f g : Bytes → Result ℕ Bytes)
    → ((name x y : Bytes) → f name ≡ ok x → g name ≡ ok y → x ≡ y)
    → toy_root m f ≡ ok r
    → toy_root m g ≡ ok s
    → r ≡ s
toy_root_agrees m r s f g agree p q = elim (Result-cases (fetch_all m.refs f)) [
  | inr (e, a) ↦ absurd (ground (arith, a, p))
  | inl (x, a) ↦ elim (Result-cases (fetch_all m.refs g)) [
    | inr (e, b) ↦ absurd (ground (arith, b, q))
    | inl (y, b) ↦
        let same : x ≡ y = fetch_all_agrees m.refs x y f g agree a b in
        let left : toy_from_slice x ≡ ok r = rw a at p in
        let right : toy_from_slice y ≡ ok s = rw b at q in cc (same, left, right)
  ]
]

pub toy_verify_complete :
    (bytes : Bytes) → (chunk : Bytes) × (toy_verify (toy_hash bytes) bytes ≡ ok chunk)
toy_verify_complete bytes = (bytes, rw (bytes_eq_refl (toy_hash bytes)) refl)

abbrev pub toy_laws : CrateLaws toy
toy_laws = record {
  length-hash = length-toy_hash;
  length-dst_hash = length-replicate 32;
  verify_chunk_sound = λ name bytes {chunk} h. toy_verify_sound name bytes chunk h;
  verify_chunk_complete = toy_verify_complete;
  content_injective = λ x y h. h;
  get_root_data_map_agrees = toy_root_agrees;
}

pub toy_infos :
    (bytes : Bytes) → map (λ (b : ℕ). replicate 32 b) bytes ≡ map toy_hash (map single bytes)
toy_infos [] = refl
toy_infos (b ∷ bs) = ap (◌∷◌ (replicate 32 b)) (toy_infos bs)

pub toy_reads_back :
    (m : ToyMap) (bytes : Bytes) → toy_to_vec m ≡ ok bytes → toy_from_slice bytes ≡ ok m
toy_reads_back m bytes h =
    let same : (if m.child then 1 else 0) ∷ m.refs ≡ bytes = cc h in
    rw (← same) (ap (λ flag. ok (record { child = flag; refs = m.refs })) (flag_back m.child))
  where
    flag_back : (b : Bool) → (if b then 1 else 0) == 1 ≡ b
    flag_back b = ground arith

toy_encrypts :
    (bytes : Bytes) (m : ToyMap) (chunks : List Bytes)
    → ◌≡◌ {A = Result ℕ (ToyMap × List Bytes)}
        (ok (record { child = false; refs = bytes }, defer (map single bytes)))
        (ok (m, chunks))
    → (m ≡ record { child = false; refs = bytes }) × (chunks ≡ defer (map single bytes))
toy_encrypts bytes m chunks h = (cc h, cc h)

deferred : {A : Type 0} (xs : List A) → Permᴰ (defer xs) xs
deferred [] = Permᴰ.nil
deferred (a ∷ []) = Permᴰ.refl (a ∷ [])
deferred (a ∷ b ∷ rest) = Permᴰ.append_comm rest (a ∷ b ∷ [])

arranges :
    (bytes : Bytes) (m : ToyMap) (chunks : List Bytes)
    → (m ≡ record { child = false; refs = bytes }) × (chunks ≡ defer (map single bytes))
    → Arranged toy m chunks
arranges bytes m chunks (p, q) = record {
  ordered = map single bytes;
  is_permutation = rw q (deferred (map single bytes));
  is_listed = ap (λ (k : ToyMap). map (λ (b : ℕ). replicate 32 b) k.refs) p ∙ toy_infos bytes;
}

abbrev IsSingle : Bytes → Type 0
IsSingle bytes = (b : ℕ) × (bytes ≡ single b)

All-IsSingle : (bytes : Bytes) → All IsSingle (map single bytes)
All-IsSingle [] = tt
All-IsSingle (b ∷ bytes) = ((b, refl), All-IsSingle bytes)

-- Chunks of one byte are what their hashes say.
listed_concat :
    (bytes : Bytes) (ordered : List Bytes)
    → All IsSingle ordered
    → map (λ (b : ℕ). replicate 32 b) bytes ≡ map toy_hash ordered
    → concat ordered ≡ bytes
listed_concat [] [] h e = refl
listed_concat [] (chunk ∷ ordered) h e = absurd (cc e)
listed_concat (b ∷ bytes) [] h e = absurd (cc e)
listed_concat (b ∷ bytes) (chunk ∷ ordered) ((x, is_single), h) e =
    let first : replicate 32 b ≡ toy_hash chunk = cc e in
    let rest : map (λ (b : ℕ). replicate 32 b) bytes ≡ map toy_hash ordered = cc e in
    let named : replicate 32 b ≡ replicate 32 x = first ∙ ap toy_hash is_single in
    let same : x ≡ b = cc named in rw is_single (ap₂ ◌∷◌ same (listed_concat bytes ordered h rest))

decrypts :
    (bytes : Bytes) (m : ToyMap) (chunks : List Bytes)
    → (m ≡ record { child = false; refs = bytes }) × (chunks ≡ defer (map single bytes))
    → (a : Arranged toy m chunks) → toy.decrypt m a.ordered ≡ ok bytes
decrypts bytes m chunks (p, q) a =
    let given =
      All-perm IsSingle (map single bytes) (defer (map single bytes))
        (Permᴰ.symm (deferred (map single bytes))) (All-IsSingle bytes) in
    let found = All-perm IsSingle chunks a.ordered a.is_permutation (rw q given) in
    let named = sym (ap (λ (k : ToyMap). map (λ (b : ℕ). replicate 32 b) k.refs) p) ∙ a.is_listed in
    ap ok (listed_concat bytes a.ordered found named)

pub toy_upload : UploadLaws toy
toy_upload = record {
  encrypt_infos =
      λ bytes {m} {chunks} h flat. arranges bytes m chunks (toy_encrypts bytes m chunks h);
  decrypt-encrypt = λ bytes {m} {chunks} h. decrypts bytes m chunks (toy_encrypts bytes m chunks h);
  from_slice-to_vec = λ m {bytes} h. toy_reads_back m bytes h;
}
