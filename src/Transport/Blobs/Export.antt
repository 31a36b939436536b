-- ===== src/Transport/Blobs/Export.antt =====
-- `export_target` and `export_collection` of blobs/iroh.rs: the files of a collection are written to
-- a directory, at the places that their names give.
use failsafe.Prelude.{
  ℕ, ◌+◌, ◌||◌, Bool, String, Option, none, some, List, [], ◌∷◌, ◌++◌, length, if◌then◌else◌,
  Result, ok, err, string_key, ◌==◌,
}
use failsafe.Prelude.Strings.{append, split_on}
use failsafe.Prelude.Stateful.{◌>>=◌, ◌>>◌, lift}
use failsafe.Transport.Blobs.{
  BlobError, store_error, BlobHash, Hash, FilePath, BlobProgress, ExportProgressItem, export_size,
  copy_progress, export_error, export_done, Library, Hosted, parse_hash, on_store, reads, report,
  all_of,
}

abbrev pub is_not_normal : String → Bool
is_not_normal part = part == "" || part == "." || part == ".."

-- `push` is `PathBuf::push` of the platform. On Unix a part without a slash is one component, which
-- it adds; on Windows it may be several, or a path of its own.
module _ (push : FilePath → String → FilePath) where
  -- The loop of `export_target`.
  unfoldable pub push_parts : FilePath → List String → Result BlobError FilePath
  push_parts path [] = ok path
  push_parts path (part ∷ parts) =
      let rest = push_parts (push path part) parts in
      if is_not_normal part
      then err (store_error (append "invalid path component: " part))
      else rest

  -- 47 is the slash.
  unfoldable pub export_target : FilePath → String → Result BlobError FilePath
  export_target base name = push_parts base (split_on 47 name)

-- `target.parent()`
abbrev pub parent : FilePath → FilePath
parent [] = []
parent (part ∷ []) = []
parent (part ∷ next ∷ more) = part ∷ parent (next ∷ more)

abbrev pub at_file : ℕ → ℕ → String → BlobProgress
at_file index total name = record {
  bytes_done = index;
  bytes_total = total;
  current_file = some name;
}

unfoldable pub follow_export :
    {S : Type 0} → ℕ → ℕ → String → List ExportProgressItem → Hosted S (Unit {0})
follow_export index total name [] = lift (ok tt)
follow_export index total name (export_size size ∷ items) = follow_export index total name items
follow_export index total name (copy_progress offset ∷ items) =
    report (at_file index total name) >> follow_export index total name items
follow_export index total name (export_error cause ∷ items) =
    lift (err (store_error (append "failed to export " (append name (append ": " cause)))))
follow_export index total name (export_done ∷ items) = lift (ok tt)

module _ {S : Type 0} (library : Library S) where
  open library use {push, load_collection, export_stream, create_dir_all}

  -- A directory counts as made when the call succeeds; one that fails may have made some of the
  -- directories on the way to it.
  abbrev pub made_dir : FilePath → String → Option String → Hosted S (Unit {0})
  made_dir dir context none host = (record host { made = host.made ++ dir ∷ [] }, ok tt)
  made_dir dir context (some e) host = (host, err (store_error (append context e)))

  abbrev pub make_dir : FilePath → String → Hosted S (Unit {0})
  make_dir dir context = made_dir dir context (create_dir_all dir)

  -- The library writes the file, and tells how far it is.
  abbrev pub start_export : Hash → FilePath → Hosted S (List ExportProgressItem)
  start_export hash target host = (
    record host { targets = host.targets ++ target ∷ [] },
    ok (export_stream hash target host.store),
  )

  -- One turn of the loop of `export_collection`.
  unfoldable pub export_file : FilePath → ℕ → ℕ → String × Hash → Hosted S FilePath
  export_file dest total index entry = do
    target ← lift (export_target push dest entry.0)
    make_dir (parent target) "failed to create parent dir: "
    report (at_file index total entry.0)
    items ← start_export entry.1 target
    follow_export index total entry.0 items
    lift (ok target)

  unfoldable pub export_each : FilePath → ℕ → ℕ → List (String × Hash) → Hosted S (List FilePath)
  export_each dest total index [] = lift (ok [])
  export_each dest total index (entry ∷ entries) = export_file dest total index entry >>= λ target.
      export_each dest total (index + 1) entries >>= λ targets. lift (ok (target ∷ targets))

  unfoldable pub export_collection : BlobHash → FilePath → Hosted S (List FilePath)
  export_collection root dest = do
    root_hash ← lift (parse_hash library root)
    collection ← on_store (reads (load_collection root_hash))
    make_dir dest "failed to create export dir: "
    paths ← export_each dest (length collection) 0 collection
    report (all_of (length collection))
    lift (ok paths)
