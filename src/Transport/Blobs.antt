-- ===== src/Transport/Blobs.antt =====
-- blobs/mod.rs, blobs/error.rs and blobs/iroh.rs of crates/failsafe-transport: files kept under their
-- hashes, fetched from a peer and written to a directory. The blob library and the file system are
-- parameters; `S` is what the library keeps. A path is the list of its components. Importing files
-- stands in Blobs/Import, exporting them in Blobs/Export.
pub mod Import
pub mod Export
pub mod Below
pub mod Fetched
use failsafe.Prelude.{
  ℕ, ◌+◌, Bool, true, false, not, String, Option, none, some, List, [], ◌∷◌, ◌++◌, map, length,
  if◌then◌else◌, min, Result, ok, err, fail_if, ok_or, string_key, nat_key, ◌==◌,
}
use failsafe.Prelude.Strings.{append}
use failsafe.Prelude.Assoc.{get}
use failsafe.Prelude.Stateful.{Stateful, ◌>>=◌, ◌>>◌, lift}
use failsafe.Core.Message.{DeviceId}

pub data BlobError : Type 0 where
  store_error peer_not_found invalid_hash : String → BlobError

abbrev pub BlobHash : Type 0
BlobHash = String

abbrev pub Hash : Type 0
Hash = ℕ

abbrev pub Bytes : Type 0
Bytes = List ℕ

abbrev pub FilePath : Type 0
FilePath = List String

pub data BlobFormat : Type 0 where
  raw hash_seq : BlobFormat

pub record BlobProgress : Type 0 where
  pub bytes_done : ℕ
  pub bytes_total : ℕ
  pub current_file : Option String

pub data DownloadProgressItem : Type 0 where
  downloaded : ℕ → DownloadProgressItem
  download_error : DownloadProgressItem
  download_failed : String → DownloadProgressItem
  other_item : DownloadProgressItem

pub data ExportProgressItem : Type 0 where
  export_size copy_progress : ℕ → ExportProgressItem
  export_error : String → ExportProgressItem
  export_done : ExportProgressItem

-- What the code calls, with errors as texts. `local` tells how many bytes of a blob are here and
-- whether all are. `public_key` reads the address of a peer, `push` is `PathBuf::push`.
pub record Library (S : Type 0) : Type 0 where
  pub parse_hex : String → Result String Hash
  pub to_hex : Hash → String
  pub public_key : String → Result String ℕ
  pub add_bytes : Bytes → S → S × Result String Hash
  pub create_tag : Hash → S → S × Result String (Unit {0})
  pub store_collection : List (String × Hash) → S → S × Result String Hash
  pub load_collection : Hash → S → Result String (List (String × Hash))
  pub get_bytes : Hash → S → Result String Bytes
  pub local : Hash → S → Result String (ℕ × Bool)
  pub download : Hash → BlobFormat → ℕ → S → S × Result String (Unit {0})
  pub download_stream : Hash → ℕ → S → S × Result String (List DownloadProgressItem)
  pub export_stream : Hash → FilePath → S → List ExportProgressItem
  pub create_dir_all : FilePath → Option String
  pub push : FilePath → String → FilePath

-- `reports` is what the progress callback got, `made` the directories that were made, `targets` the
-- files that the library was told to write.
pub record Host (S : Type 0) : Type 0 where
  pub store : S
  pub reports : List BlobProgress
  pub made : List FilePath
  pub targets : List FilePath

abbrev pub stored : {A : Type 0} → Result String A → Result BlobError A
stored (ok a) = ok a
stored (err e) = err (store_error e)

abbrev pub Shared : Type 0 → Type 0 → Type 0
Shared S A = Stateful S BlobError A

abbrev pub Hosted : Type 0 → Type 0 → Type 0
Hosted S A = Stateful (Host S) BlobError A

abbrev pub calls : {S A : Type 0} → (S → S × Result String A) → Shared S A
calls f s = let r = f s in (r.0, stored r.1)

abbrev pub reads : {S A : Type 0} → (S → Result String A) → Shared S A
reads f s = (s, stored (f s))

-- Code on the store, as code on the host.
abbrev pub on_store : {S A : Type 0} → Shared S A → Hosted S A
on_store m host = let r = m host.store in (record host { store = r.0 }, r.1)

abbrev pub report : {S : Type 0} → BlobProgress → Hosted S (Unit {0})
report p host = (record host { reports = host.reports ++ p ∷ [] }, ok tt)

abbrev pub all_of : ℕ → BlobProgress
all_of total = record { bytes_done = total; bytes_total = total; current_file = none }

-- The loop of `download_collection` over what the stream of the download gives.
unfoldable pub follow_download : {S : Type 0} → ℕ → List DownloadProgressItem → Hosted S (Unit {0})
follow_download total [] = lift (ok tt)
follow_download total (downloaded bytes ∷ items) =
    report (record { bytes_done = min bytes total; bytes_total = total; current_file = none })
    >> follow_download total items
follow_download total (download_error ∷ items) = lift (err (store_error "download failed"))
follow_download total (download_failed e ∷ items) = lift (err (store_error e))
follow_download total (other_item ∷ items) = follow_download total items

abbrev parsed : Result String Hash → Result BlobError Hash
parsed (ok hash) = ok hash
parsed (err e) = err (invalid_hash e)

module _ {S : Type 0} (library : Library S) where
  open library use {parse_hex, to_hex, add_bytes, create_tag, store_collection, get_bytes, local}

  unfoldable pub parse_hash : BlobHash → Result BlobError Hash
  parse_hash hash = parsed (parse_hex hash)

  unfoldable pub store_bytes : Bytes → Shared S BlobHash
  store_bytes data_ = do
    hash ← calls (add_bytes data_)
    calls (create_tag hash)
    lift (ok (to_hex hash))

  unfoldable pub add_each : List (String × Bytes) → Shared S (List (String × Hash))
  add_each [] = lift (ok [])
  add_each (file ∷ files) = calls (add_bytes file.1) >>= λ hash.
      add_each files >>= λ entries. lift (ok ((file.0, hash) ∷ entries))

  -- A collection of the entries, kept under a tag of its own.
  unfoldable pub keep_collection : List (String × Hash) → Shared S BlobHash
  keep_collection entries = do
    root ← calls (store_collection entries)
    calls (create_tag root)
    lift (ok (to_hex root))

  unfoldable pub store_files : List (String × Bytes) → Shared S BlobHash
  store_files files = do entries ← add_each files; keep_collection entries

  unfoldable pub get_each : List (String × Hash) → Shared S (List (String × Bytes))
  get_each [] = lift (ok [])
  get_each (entry ∷ entries) = reads (get_bytes entry.1) >>= λ data_.
      get_each entries >>= λ files. lift (ok ((entry.0, data_) ∷ files))

  unfoldable pub collection_status : BlobHash → ℕ → Shared S (ℕ × ℕ × Bool)
  collection_status root total = do
    root_hash ← lift (parse_hash root)
    here ← reads (local root_hash)
    lift (ok (here.0, total, here.1))

module _ {S : Type 0} (library : Library S) (book : List (DeviceId × String))
    (show : DeviceId → String) where
  open library use {public_key, load_collection, get_bytes, local, download, download_stream}

  abbrev found_endpoint : DeviceId → Option String → Result BlobError ℕ
  found_endpoint peer none = err (peer_not_found (show peer))
  found_endpoint peer (some address) = stored (public_key address)

  unfoldable pub peer_endpoint_id : DeviceId → Result BlobError ℕ
  peer_endpoint_id peer = found_endpoint peer (get peer book)

  unfoldable pub download_from : DeviceId → Hash → BlobFormat → Shared S (Unit {0})
  download_from peer hash format = do
    provider ← lift (peer_endpoint_id peer)
    calls (download hash format provider)

  unfoldable pub fetch_bytes : DeviceId → BlobHash → Shared S Bytes
  fetch_bytes peer hash = do
    h ← lift (parse_hash library hash)
    download_from peer h raw
    reads (get_bytes h)

  unfoldable pub fetch_collection_files : DeviceId → BlobHash → Shared S (List (String × Bytes))
  fetch_collection_files peer root = do
    root_hash ← lift (parse_hash library root)
    download_from peer root_hash hash_seq
    collection ← reads (load_collection root_hash)
    get_each library collection

  abbrev download_missing : DeviceId → Hash → ℕ → Hosted S (Unit {0})
  download_missing peer root_hash total = do
    provider ← lift (peer_endpoint_id peer)
    items ← on_store (calls (download_stream root_hash provider))
    follow_download total items
    here ← on_store (reads (local root_hash))
    lift (fail_if (not here.1) (store_error "download ended before collection was complete"))
    report (all_of total)

  unfoldable pub download_collection : DeviceId → BlobHash → ℕ → Hosted S (Unit {0})
  download_collection peer root total = do
    root_hash ← lift (parse_hash library root)
    here ← on_store (reads (local root_hash))
    if here.1 then report (all_of total) else download_missing peer root_hash total
