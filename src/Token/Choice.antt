-- ===== src/Token/Choice.antt =====
-- Which backup `extract_token` of token.py takes.
use hass_comelit_intercom_lo.Base.{
  ℕ, ◌+◌, ◌-◌, ◌*◌, ◌≤◌, ◌<◌, ◌≡◌, ◌≢◌, refl, subst, map, true, false, some, List, [], ◌∷◌, ◌++◌,
  arith, All, length, Bool-cases, inl, inr, if-cases,
}
use hass_comelit_intercom_lo.Base.Bytes.{Str}
use hass_comelit_intercom_lo.Base.Numerals.{AreDigits}
use hass_comelit_intercom_lo.Token.Backups.{
  suffix, backup_files, le_str, insert_sorted, sort, last?, latest_backup,
}

le_str_total : (s t : Str) → le_str s t ≡ false → le_str t s ≡ true
unfolding le_str
le_str_total [] t h = cc
le_str_total (a ∷ s) [] h = refl
le_str_total (a ∷ s) (b ∷ t) h = ground (arith, le_str_total s t)

le_str_trans : (s t u : Str) → le_str s t ≡ true → le_str t u ≡ true → le_str s u ≡ true
unfolding le_str
le_str_trans [] t u h k = refl
le_str_trans (a ∷ s) [] u h k = cc
le_str_trans (a ∷ s) (b ∷ t) [] h k = cc
le_str_trans (a ∷ s) (b ∷ t) (c ∷ u) h k = ground (arith, le_str_trans s t u)

le_str_refl : (s : Str) → le_str s s ≡ true
unfolding le_str
le_str_refl [] = refl
le_str_refl (a ∷ s) = ground (arith, le_str_refl s)

-- No text of the list is greater.
abbrev pub IsGreatest : Str → List Str → Type 0
IsGreatest top = All (λ name. le_str name top ≡ true)

IsSorted : List Str → Type 0
IsSorted [] = Unit
IsSorted (name ∷ names) = All (λ n. le_str name n ≡ true) names × IsSorted names

All_above :
    (name n : Str) (names : List Str)
    → le_str name n ≡ true
    → All (λ m. le_str n m ≡ true) names
    → All (λ m. le_str name m ≡ true) names
All_above name n [] h k = tt
All_above name n (m ∷ names) h k = (le_str_trans name n m h k.0, All_above name n names h k.1)

All-insert_sorted {ℓ} :
    (P : Str → Type ℓ) (name : Str) (names : List Str)
    → P name
    → All P names
    → All P (insert_sorted name names)
unfolding insert_sorted
All-insert_sorted P name [] h k = (h, tt)
All-insert_sorted P name (n ∷ names) h k =
    if-cases (All P) (le_str name n) _ _ (λ _. (h, k))
      (λ _. (k.0, All-insert_sorted P name names h k.1))

insert_sorted-IsSorted :
    (name : Str) (names : List Str) → IsSorted names → IsSorted (insert_sorted name names)
unfolding insert_sorted IsSorted
insert_sorted-IsSorted name [] s = (tt, tt)
insert_sorted-IsSorted name (n ∷ names) s =
    if-cases IsSorted (le_str name n) _ _ (λ h. ((h, All_above name n names h s.0), s))
      (λ h. (
        All-insert_sorted (λ m. le_str n m ≡ true) name names (le_str_total name n h) s.0,
        insert_sorted-IsSorted name names s.1,
      ))

sort-IsSorted : (names : List Str) → IsSorted (sort names)
unfolding sort IsSorted
sort-IsSorted [] = tt
sort-IsSorted (name ∷ names) = insert_sorted-IsSorted name (sort names) (sort-IsSorted names)

-- What holds of the sorted texts holds of all of them.
All_of_insert_sorted {ℓ} :
    (P : Str → Type ℓ) (name : Str) (names : List Str)
    → All P (insert_sorted name names)
    → P name × All P names
unfolding insert_sorted
All_of_insert_sorted P name [] h = h
All_of_insert_sorted P name (n ∷ names) h = elim (Bool-cases (le_str name n)) [
  | inl le ↦ rw le at h
  | inr gt ↦
      let here = rw gt at h in
      let (first, rest) = All_of_insert_sorted P name names here.1 in (first, (here.0, rest))
]

All_of_sort {ℓ} : (P : Str → Type ℓ) (names : List Str) → All P (sort names) → All P names
unfolding sort
All_of_sort P [] h = tt
All_of_sort P (name ∷ names) h =
    let (first, rest) = All_of_insert_sorted P name (sort names) h in
    (first, All_of_sort P names rest)

last-IsGreatest :
    (names : List Str) (top : Str) → IsSorted names → last? names ≡ some top → IsGreatest top names
unfolding IsSorted last?
last-IsGreatest [] top s e = cc
last-IsGreatest (name ∷ []) top s e =
    (subst (λ t. le_str name t ≡ true) (cc e) (le_str_refl name), tt)
last-IsGreatest (name ∷ n ∷ names) top s e =
    let later = last-IsGreatest (n ∷ names) top s.1 e in
    (le_str_trans name n top s.0.0 later.0, later)

-- The backup that is taken is the last in the order of texts.
pub latest_backup-IsGreatest :
    (html top : Str) → latest_backup html ≡ some top → IsGreatest top (backup_files html)
unfolding latest_backup
latest_backup-IsGreatest html top e =
    All_of_sort (λ n. le_str n top ≡ true) (backup_files html)
      (last-IsGreatest (sort (backup_files html)) top (sort-IsSorted (backup_files html)) e)

-- The number that digits write, behind those read so far.
unfoldable pub value_from : ℕ → Str → ℕ
value_from n [] = n
value_from n (c ∷ s) = value_from (n * 10 + (c - b'0')) s

abbrev pub value : Str → ℕ
value s = value_from 0 s

value_from_lt :
    (m n : ℕ) (s t : Str)
    → m < n
    → length s ≡ length t
    → AreDigits s
    → value_from m s < value_from n t
unfolding value_from
value_from_lt m n [] [] h e d = h
value_from_lt m n [] (b ∷ t) h e d = absurd (omega arith)
value_from_lt m n (a ∷ s) [] h e d = absurd (omega arith)
value_from_lt m n (a ∷ s) (b ∷ t) h e d =
    value_from_lt (m * 10 + (a - b'0')) (n * 10 + (b - b'0')) s t (ground arith) (omega arith) d.1

value_from_le :
    (n : ℕ) (s t : Str)
    → length s ≡ length t
    → AreDigits s
    → AreDigits t
    → le_str (s ++ suffix) (t ++ suffix) ≡ true
    → value_from n s ≤ value_from n t
unfolding value_from le_str
value_from_le n [] [] e d f h = omega arith
value_from_le n [] (b ∷ t) e d f h = absurd (omega arith)
value_from_le n (a ∷ s) [] e d f h = absurd (omega arith)
value_from_le n (a ∷ s) (b ∷ t) e d f h = ground (
  arith,
  value_from_le (n * 10 + (a - b'0')) s t,
  value_from_lt (n * 10 + (a - b'0')) (n * 10 + (b - b'0')) s t,
)

-- A backup's digits: so many of them.
abbrev pub IsNumber : ℕ → Str → Type 0
IsNumber width digits = AreDigits digits × (length digits ≡ width)

values_below :
    (width : ℕ) (top : Str) (numbers : List Str)
    → IsNumber width top
    → All (IsNumber width) numbers
    → IsGreatest (top ++ suffix) (map (λ n. n ++ suffix) numbers)
    → All (λ n. value n ≤ value top) numbers
values_below width top [] t h g = tt
values_below width top (n ∷ numbers) t h g = (
  value_from_le 0 n top (omega (arith, h.0.1, t.1)) h.0.0 t.0 g.0,
  values_below width top numbers t h.1 g.1,
)

-- Where the names of all backups have equally many digits, the backup of the highest number is taken.
pub latest_backup-highest :
    (html : Str) (width : ℕ) (numbers : List Str) (top : Str)
    → backup_files html ≡ map (λ n. n ++ suffix) numbers
    → All (IsNumber width) numbers
    → IsNumber width top
    → latest_backup html ≡ some (top ++ suffix)
    → All (λ n. value n ≤ value top) numbers
latest_backup-highest html width numbers top listed widths is_number taken =
    values_below width top numbers is_number widths
      (subst (IsGreatest (top ++ suffix)) listed (latest_backup-IsGreatest html _ taken))

greatest_at :
    (top name : Str) (before later : List Str)
    → IsGreatest top (before ++ name ∷ later)
    → le_str name top ≡ true
greatest_at top name [] later h = h.0
greatest_at top name (n ∷ before) later h = greatest_at top name before later h.1

-- But the numbers are compared as texts: while a backup with a greater first digit is listed, one with
-- a smaller first digit is not taken, however many digits it has.
pub latest_backup_first_digit :
    (html : Str) (a b : ℕ) (s t : Str) (before later : List Str)
    → a < b
    → backup_files html ≡ before ++ (b ∷ t) ∷ later
    → latest_backup html ≢ some (a ∷ s)
unfolding le_str
latest_backup_first_digit html a b s t before later h listed taken =
    let greatest = subst (IsGreatest (a ∷ s)) listed (latest_backup-IsGreatest html _ taken) in
    let le = greatest_at (a ∷ s) (b ∷ t) before later greatest in ground arith
