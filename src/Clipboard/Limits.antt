-- ===== src/Clipboard/Limits.antt =====
-- limits.rs of crates/failsafe-clipboard: how large files and blobs may be. Sizes are u64 and their
-- sum saturates.
pub mod Bounds
use failsafe.Prelude.{
  ℕ, Bool, true, false, String, List, [], ◌∷◌, map, length, ltb, if◌then◌else◌, Result, ok, err,
  ◌>>◌, ◌>>=◌, fail_if,
}
use failsafe.Prelude.Words.{u64_max, saturating_add}

pub record ClipboardLimits : Type 0 where
  pub max_file_bytes : ℕ
  pub max_total_bytes : ℕ

pub data LimitError : Type 0 where
  file_exceeds : String → ℕ → LimitError
  total_exceeds : ℕ → LimitError
  blob_exceeds : ℕ → LimitError

abbrev pub default_limits : ClipboardLimits
default_limits = record { max_file_bytes = 104857600; max_total_bytes = 524288000 }

abbrev pub unlimited : ClipboardLimits
unlimited = record { max_file_bytes = u64_max; max_total_bytes = u64_max }

-- The loop of `validate_entries`, from a total: the total of all, or the first file too large.
unfoldable pub sum_entries : ℕ → List (String × ℕ) → ℕ → Result LimitError ℕ
sum_entries max_file [] total = ok total
sum_entries max_file ((name, size) ∷ entries) total =
    fail_if (ltb max_file size) (file_exceeds name max_file)
    >> sum_entries max_file entries (saturating_add u64_max total size)

unfoldable pub validate_entries : ClipboardLimits → List (String × ℕ) → Result LimitError (Unit {0})
unfolding sum_entries
validate_entries limits entries = sum_entries limits.max_file_bytes entries 0 >>= λ total.
    fail_if (ltb limits.max_total_bytes total) (total_exceeds limits.max_total_bytes)

-- The loop of `validate_files`, over files with their bytes.
unfoldable pub sum_files : ℕ → List (String × List ℕ) → ℕ → Result LimitError ℕ
sum_files max_file [] total = ok total
sum_files max_file ((name, data_) ∷ files) total =
    fail_if (ltb max_file (length data_)) (file_exceeds name max_file)
    >> sum_files max_file files (saturating_add u64_max total (length data_))

unfoldable pub validate_files :
    ClipboardLimits → List (String × List ℕ) → Result LimitError (Unit {0})
unfolding sum_files
validate_files limits files = sum_files limits.max_file_bytes files 0 >>= λ total.
    fail_if (ltb limits.max_total_bytes total) (total_exceeds limits.max_total_bytes)

unfoldable pub validate_blob : ClipboardLimits → ℕ → Result LimitError (Unit {0})
validate_blob limits size =
    fail_if (ltb limits.max_file_bytes size) (blob_exceeds limits.max_file_bytes)
