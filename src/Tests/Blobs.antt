-- ===== src/Tests/Blobs.antt =====
-- Blobs with a concrete library, which numbers what it keeps.
use failsafe.Prelude.{
  ℕ, zero, suc, ◌≡◌, refl, ap, true, String, Option, none, some, List, [], ◌∷◌, ◌++◌, length,
  get_elem?, Result, ok, err, arith, nat_key, string_key,
}
use failsafe.Prelude.Assoc.{get}
use failsafe.Prelude.Stateful.{◌>>=◌, ◌>>◌, lift}
use failsafe.Prelude.Strings.{split_on}
use failsafe.Transport.Blobs.{
  FilePath, Bytes, Hash, Library, Host, add_each, keep_collection, store_files, peer_endpoint_id,
  fetch_collection_files,
}
use failsafe.Transport.Blobs.Export.{export_target, push_parts}
use failsafe.Transport.Blobs.Fetched.{Laws, fetch_collection_files-store_files}
use failsafe.Transport.Blobs.Import.{offset_at, finished, import_sources, collect}
use failsafe.Transport.Blobs.Import.Order.{import_sources-any_order}

record Shelf : Type 0 where
  blobs : List Bytes
  trees : List (List (String × Hash))

module _ {A : Type 0} where
  get_elem?-append :
      (xs ys : List A) (i : ℕ) (x : A) → get_elem? xs i ≡ some x → get_elem? (xs ++ ys) i ≡ some x
  get_elem?-append [] ys i x h = absurd (ground (arith, h))
  get_elem?-append (y ∷ xs) ys zero x h = h
  get_elem?-append (y ∷ xs) ys (suc i) x h = get_elem?-append xs ys i x h

  get_elem?-last : (xs : List A) (x : A) → get_elem? (xs ++ x ∷ []) (length xs) ≡ some x
  get_elem?-last [] x = refl
  get_elem?-last (y ∷ xs) x = get_elem?-last xs x

abbrev strokes : ℕ → String
strokes zero = String.[]
strokes (suc n) = String.◌∷◌ "x" (strokes n)

abbrev count : String → ℕ
count String.[] = 0
count (String.◌∷◌ c s) = suc (count s)

count-strokes : (n : ℕ) → count (strokes n) ≡ n
count-strokes zero = refl
count-strokes (suc n) = ap suc (count-strokes n)

abbrev found : {A : Type 0} → Option A → Result String A
found none = err "not there"
found (some a) = ok a

abbrev remote : Shelf
remote = record { blobs = (1 ∷ []) ∷ (2 ∷ 3 ∷ []) ∷ []; trees = (("a", 0) ∷ ("b", 1) ∷ []) ∷ [] }

abbrev library : Library Shelf
library = record {
  parse_hex = λ t. ok (count t);
  to_hex = strokes;
  public_key = λ t. ok 5;
  add_bytes = λ b s. (record s { blobs = s.blobs ++ b ∷ [] }, ok (length s.blobs));
  create_tag = λ h s. (s, ok tt);
  store_collection = λ es s. (record s { trees = s.trees ++ es ∷ [] }, ok (length s.trees));
  load_collection = λ h s. found (get_elem? s.trees h);
  get_bytes = λ h s. found (get_elem? s.blobs h);
  local = λ h s. ok (0, true);
  download = λ h format provider s. (remote, ok tt);
  download_stream = λ h provider s. (s, ok []);
  export_stream = λ h target s. [];
  create_dir_all = λ dir. none;
  push = λ path part. path ++ part ∷ [];
}

laws : Laws library
laws = record {
  Has = λ s h b. get_elem? s.blobs h ≡ some b;
  Names = λ s h es. get_elem? s.trees h ≡ some es;
  added = λ s b hash is. ground (arith, is, get_elem?-last s.blobs b);
  add-Has = λ s b c hash h. get_elem?-append s.blobs (c ∷ []) hash b h;
  tag-Has = λ s t b hash h. h;
  collection-Has = λ s es b hash h. h;
  collected = λ s es root is. ground (arith, is, get_elem?-last s.trees es);
  tag-Names = λ s t root es h. h;
  get-Has = λ s hash b h. ap found h;
  load-Names = λ s root es h. ap found h;
  parse-to_hex = λ hash. ap ok (count-strokes hash);
}

abbrev nothing : Shelf
nothing = record { blobs = []; trees = [] }

abbrev host : Host Shelf
host = record { store = remote; reports = []; made = []; targets = [] }

fetch_collection_files-store_files_example :
    (fetch_collection_files library ((7, "address") ∷ []) (λ d. "seven") 7 "" nothing).1
    ≡ ok (("a", 1 ∷ []) ∷ ("b", 2 ∷ 3 ∷ []) ∷ [])
unfolding store_files add_each keep_collection peer_endpoint_id get ◌>>=◌ ◌>>◌ lift
fetch_collection_files-store_files_example =
    fetch_collection_files-store_files library laws ((7, "address") ∷ []) (λ d. "seven")
      (("a", 1 ∷ []) ∷ ("b", 2 ∷ 3 ∷ []) ∷ []) "" 7 5 nothing nothing refl refl
      (λ hash h. (refl, h))

-- `push` of Windows, for a part that is neither rooted nor on another drive; 92 is the backslash.
abbrev windows_push : FilePath → String → FilePath
windows_push path part = path ++ split_on 92 part

windows_escapes : export_target windows_push ("tmp" ∷ []) "..\\x" ≡ ok ("tmp" ∷ ".." ∷ "x" ∷ [])
unfolding export_target push_parts split_on
windows_escapes = refl

import_sources-any_order_example :
    let run =
      import_sources library
        (λ path. 4)
        (("a", "/a") ∷ ("b", "/b") ∷ [])
        (finished 1 (ok ("b", 1, 4)) ∷ offset_at 0 2 ∷ finished 0 (ok ("a", 0, 4)) ∷ [])
        host in
    let direct = collect library (λ path. 4) (("a", 0, 4) ∷ ("b", 1, 4) ∷ []) remote in
    (run.1 ≡ direct.1) × (run.0.store ≡ direct.0)
import_sources-any_order_example =
    import_sources-any_order library (λ path. 4) (("a", "/a") ∷ ("b", "/b") ∷ [])
      (("a", 0, 4) ∷ ("b", 1, 4) ∷ [])
      (finished 1 (ok ("b", 1, 4)) ∷ offset_at 0 2 ∷ finished 0 (ok ("a", 0, 4)) ∷ []) host
      (λ p. absurd (ground (arith, p))) refl (refl, refl, (refl, refl, tt)) refl
