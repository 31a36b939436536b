-- ===== src/Transport/Blobs/Import.antt =====
-- `import_sources`, `import_source_file` and `aggregate_import_progress` of blobs/iroh.rs of
-- crates/failsafe-transport. A task imports each file; what the tasks send is a list of events, in the
-- order in which `select!` takes them from the two channels.
pub mod Order
use failsafe.Prelude.{
  ℕ, zero, suc, ◌+◌, ◌%◌, Bool, true, false, not, String, Option, none, some, List, [], ◌∷◌, ◌++◌,
  map, length, ltb, nat_beq, if◌then◌else◌, Result, ok, err, fail_if,
}
use failsafe.Prelude.Strings.{append}
use failsafe.Prelude.Words.{u64_max, u64_mod, saturating_add}
use failsafe.Prelude.Stateful.{◌>>=◌, ◌>>◌, lift}
use failsafe.Transport.Blobs.{
  BlobError, store_error, BlobHash, Hash, BlobProgress, Library, Host, Shared, Hosted, on_store,
  all_of, keep_collection,
}

pub record ImportedFile : Type 0 where
  pub name : String
  pub size : ℕ

pub record FileImportState : Type 0 where
  pub name : String
  pub size : ℕ
  pub offset : ℕ
  pub done : Bool

-- The name, the hash and the size of a file that is imported.
abbrev pub Entry : Type 0
Entry = String × Hash × ℕ

pub data AddProgressItem : Type 0 where
  size_item copy_progress outboard_progress : ℕ → AddProgressItem
  copy_done : AddProgressItem
  add_error : String → AddProgressItem
  add_done : Hash → AddProgressItem

abbrev heard : ℕ → List ℕ × Result BlobError Entry → List ℕ × Result BlobError Entry
heard offset r = (offset ∷ r.0, r.1)

-- The loop of `import_source_file` over what the import's stream gives, at the size that it told last:
-- the offsets that are sent, and the result.
unfoldable pub import_source_file :
    String → String → ℕ → List AddProgressItem → List ℕ × Result BlobError Entry
import_source_file name path file_size [] =
    ([], err (store_error (append "import stream ended before completion for " path)))
import_source_file name path file_size (size_item size ∷ items) =
    heard 0 (import_source_file name path size items)
import_source_file name path file_size (copy_progress offset ∷ items) =
    heard offset (import_source_file name path file_size items)
import_source_file name path file_size (copy_done ∷ items) =
    heard file_size (import_source_file name path file_size items)
import_source_file name path file_size (outboard_progress offset ∷ items) =
    heard offset (import_source_file name path file_size items)
import_source_file name path file_size (add_error cause ∷ items) =
    ([], err (store_error (append "failed to import " (append path (append ": " cause)))))
import_source_file name path file_size (add_done hash ∷ items) = ([], ok (name, hash, file_size))

-- The bytes and the current file after some states.
unfoldable pub aggregate : ℕ → Option String → List FileImportState → ℕ × Option String
aggregate bytes_done current_file [] = (bytes_done, current_file)
aggregate bytes_done current_file (state ∷ states) =
    aggregate (saturating_add u64_max bytes_done (if state.done then state.size else state.offset))
      (if not state.done then current state current_file else current_file) states
  where
    current : FileImportState → Option String → Option String
    current state (some name) = some name
    current state none = if ltb state.offset state.size then some state.name else none

unfoldable pub aggregate_import_progress : List FileImportState → ℕ → BlobProgress
aggregate_import_progress states total =
    let r = aggregate 0 none states in
    record { bytes_done = r.0; bytes_total = total; current_file = r.1 }

pub data ImportEvent : Type 0 where
  offset_at : ℕ → ℕ → ImportEvent
  finished : ℕ → Result BlobError Entry → ImportEvent

-- `xs[index] = f(xs[index])`; the indices are those of the sources.
abbrev pub change : {A : Type 0} → ℕ → (A → A) → List A → List A
change index f [] = []
change zero f (x ∷ xs) = f x ∷ xs
change (suc index) f (x ∷ xs) = x ∷ change index f xs

pub record Importing : Type 0 where
  pub states : List FileImportState
  pub results : List (Option Entry)
  pub completed : ℕ
  pub reports : List BlobProgress

module _ (count total : ℕ) where
  abbrev aggregated : Importing → Importing
  aggregated w = record w { reports = w.reports ++ aggregate_import_progress w.states total ∷ [] }

  abbrev pub moved : ℕ → ℕ → Importing → Importing
  moved index offset w = aggregated (record w {
    states = change index (λ (s : FileImportState). record s { offset = offset }) w.states;
  })

  abbrev pub filled : ℕ → Entry → Importing → Importing
  filled index entry w = aggregated (record w {
    states =
        change index (λ (s : FileImportState). record s { done = true; offset = entry.2 }) w.states;
    results = change index (λ (slot : Option Entry). some entry) w.results;
    completed = w.completed + 1;
  })

  -- The loop of `import_sources`; both channels end when all tasks have sent their results.
  unfoldable pub gather : List ImportEvent → Importing → Importing × Result BlobError (Unit {0})
  gather [] w = (w, ok tt)
  gather (offset_at index offset ∷ events) w =
      let rest = gather events (moved index offset w) in
      if ltb w.completed count then rest else (w, ok tt)
  gather (finished index (ok entry) ∷ events) w =
      let rest = gather events (filled index entry w) in
      if ltb w.completed count then rest else (w, ok tt)
  gather (finished index (err e) ∷ events) w =
      if ltb w.completed count then (w, err e) else (w, ok tt)

unfoldable pub sum_of : List FileImportState → ℕ
sum_of [] = 0
sum_of (state ∷ states) = (state.size + sum_of states) % u64_mod

abbrev pub empty_slot : {A : Type 0} → A → Option Entry
empty_slot a = none

-- `results.into_iter().flatten()`
unfoldable pub flatten : List (Option Entry) → List Entry
flatten [] = []
flatten (none ∷ slots) = flatten slots
flatten (some entry ∷ slots) = entry ∷ flatten slots

-- `file_len` is the length of a file, zero if it cannot be read.
module _ {S : Type 0} (library : Library S) (file_len : String → ℕ) where
  abbrev new_import_state : String × String → FileImportState
  new_import_state source = record {
    name = source.0;
    size = file_len source.1;
    offset = 0;
    done = false;
  }

  abbrev pub started : List (String × String) → Importing
  started sources = record {
    states = map new_import_state sources;
    results = map empty_slot sources;
    completed = 0;
    reports =
        aggregate_import_progress (map new_import_state sources)
          (sum_of (map new_import_state sources))
        ∷ [];
  }

  -- The root of the collection, and the files in it.
  unfoldable pub collect : List Entry → Shared S (BlobHash × List ImportedFile)
  collect entries = do
    root ← keep_collection library (map (λ (e : Entry). (e.0, e.1)) entries)
    lift (ok (root, map (λ (e : Entry). record { name = e.0; size = e.2 }) entries))

  abbrev reporting : List BlobProgress → Hosted S (Unit {0})
  reporting ps host = (record host { reports = host.reports ++ ps }, ok tt)

  abbrev pub ended :
      ℕ → ℕ → Importing × Result BlobError (Unit {0}) → Hosted S (BlobHash × List ImportedFile)
  ended count total (w, err e) = reporting w.reports >> lift (err e)
  ended count total (w, ok u) = do
    reporting w.reports
    lift (
        fail_if (not (nat_beq w.completed count))
          (store_error "import ended before all files completed"))
    reporting (all_of total ∷ [])
    on_store (collect (flatten w.results))

  unfoldable pub import_sources :
      List (String × String) → List ImportEvent → Hosted S (BlobHash × List ImportedFile)
  import_sources [] events = lift (err (store_error "no import sources"))
  import_sources (source ∷ sources) events =
      let w = started (source ∷ sources) in
      let total = sum_of w.states in
      ended (length (source ∷ sources)) total (gather (length (source ∷ sources)) total events w)
