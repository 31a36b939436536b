-- ===== src/Clipboard/Limits/Bounds.antt =====
-- limits.rs: what the limits accept, beside the exact total.
use failsafe.Prelude.{
  ℕ, ◌+◌, ◌≤◌, min, ◌≡◌, refl, ap, inl, inr, ◌↔◌, String, List, [], ◌∷◌, length, ltb, arith, All,
  ok, ◌>>◌, fail_if, Bool-cases, Result-cases, ◌⊎◌,
}
use failsafe.Prelude.Words.{u64_max, saturating_add, saturating_add_le}
use failsafe.Clipboard.Limits.{
  ClipboardLimits, file_exceeds, total_exceeds, sum_entries, validate_entries, sum_files,
  validate_files,
}

-- The exact total of the sizes.
abbrev pub total_of : List (String × ℕ) → ℕ
total_of [] = 0
total_of ((name, size) ∷ entries) = size + total_of entries

-- No file is larger than the limit.
abbrev pub EachFits : ℕ → List (String × ℕ) → Type 0
EachFits max_file entries = All (λ (e : String × ℕ). e.1 ≤ max_file) entries

sum_entries-EachFits :
    (max_file : ℕ) (entries : List (String × ℕ)) (total t : ℕ)
    → sum_entries max_file entries total ≡ ok t
    → EachFits max_file entries × (total ≤ u64_max → t ≡ min (total + total_of entries) u64_max)
unfolding sum_entries
sum_entries-EachFits max_file [] total t h = (tt, λ le. ground arith)
sum_entries-EachFits max_file ((name, size) ∷ entries) total t h =
    elim (Bool-cases (ltb max_file size)) [
      | inl large ↦ absurd (ground (arith, large))
      | inr fits ↦
          let rest =
            sum_entries-EachFits max_file entries (saturating_add u64_max total size) t
              (ground (arith, fits)) in
          (
            (ground (arith, fits), rest.0),
            λ le. omega (arith, rest.1 (saturating_add_le u64_max total size)),
          )
    ]

EachFits-sum_entries :
    (max_file : ℕ) (entries : List (String × ℕ)) (total : ℕ)
    → EachFits max_file entries
    → (t : ℕ) × (sum_entries max_file entries total ≡ ok t)
unfolding sum_entries
EachFits-sum_entries max_file [] total h = (total, refl)
EachFits-sum_entries max_file ((name, size) ∷ entries) total h =
    let rest = EachFits-sum_entries max_file entries (saturating_add u64_max total size) h.1 in
    (rest.0, ground (arith, h.0, rest.1))

total-fits :
    (limits : ClipboardLimits) (t total : ℕ)
    → limits.max_total_bytes ≤ u64_max
    → t ≡ min total u64_max
    → fail_if (ltb limits.max_total_bytes t) (total_exceeds limits.max_total_bytes) ≡ ok tt
    → (total ≤ limits.max_total_bytes) ⊎ (limits.max_total_bytes ≡ u64_max)
total-fits limits t total word e h = elim (Bool-cases (ltb limits.max_total_bytes t)) [
  | inl large ↦ absurd (ground (arith, large))
  | inr fits ↦ ground (arith, fits)
]

fits-total :
    (limits : ClipboardLimits) (t total : ℕ)
    → limits.max_total_bytes ≤ u64_max
    → t ≡ min total u64_max
    → (total ≤ limits.max_total_bytes) ⊎ (limits.max_total_bytes ≡ u64_max)
    → fail_if (ltb limits.max_total_bytes t) (total_exceeds limits.max_total_bytes) ≡ ok tt
fits-total limits t total word e h = elim (Bool-cases (ltb limits.max_total_bytes t)) [
  | inl large ↦ absurd (ground (arith, large))
  | inr fits ↦ rw fits refl
]

-- Entries are accepted exactly when each fits and their exact total fits, or the limit is the
-- largest u64, for a limit that is a u64.
pub validate_entries-EachFits :
    (limits : ClipboardLimits) (entries : List (String × ℕ))
    → limits.max_total_bytes ≤ u64_max
    → (validate_entries limits entries ≡ ok tt) ↔ (
        EachFits limits.max_file_bytes entries
        × ((total_of entries ≤ limits.max_total_bytes) ⊎ (limits.max_total_bytes ≡ u64_max)))
unfolding validate_entries
validate_entries-EachFits limits entries word =
    elim (Result-cases (sum_entries limits.max_file_bytes entries 0)) [
      | inl (e, refused) ↦ (
        λ h. absurd (ground (arith, refused)),
        λ h.
            let s = EachFits-sum_entries limits.max_file_bytes entries 0 h.0 in
            absurd (ground (arith, refused, s.1)),
      )
      | inr (t, summed) ↦
          let s = sum_entries-EachFits limits.max_file_bytes entries 0 t summed in
          let total : t ≡ min (total_of entries) u64_max = omega (arith, s.1 (omega arith)) in
          (
            λ h. (s.0, total-fits limits t (total_of entries) word total (ground (arith, summed))),
            λ h. rw summed (fits-total limits t (total_of entries) word total h.1),
          )
    ]

-- `validate_files` is `validate_entries` on the lengths of the files.
abbrev sizes : List (String × List ℕ) → List (String × ℕ)
sizes [] = []
sizes ((name, bytes) ∷ files) = (name, length bytes) ∷ sizes files

sum_files-sizes :
    (max_file : ℕ) (files : List (String × List ℕ)) (total : ℕ)
    → sum_files max_file files total ≡ sum_entries max_file (sizes files) total
unfolding sum_files sum_entries
sum_files-sizes max_file [] total = refl
sum_files-sizes max_file ((name, bytes) ∷ files) total =
    ap (λ r. fail_if (ltb max_file (length bytes)) (file_exceeds name max_file) >> r)
      (sum_files-sizes max_file files (saturating_add u64_max total (length bytes)))

-- Files in memory are judged as the entries that name their sizes, errors included.
validate_files-validate_entries :
    (limits : ClipboardLimits) (files : List (String × List ℕ))
    → validate_files limits files ≡ validate_entries limits (sizes files)
unfolding validate_files validate_entries
validate_files-validate_entries limits files =
    rw (sum_files-sizes limits.max_file_bytes files 0) refl
