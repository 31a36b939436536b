-- ===== src/Transport/Blobs/Fetched.antt =====
-- Files that are kept as a collection, and read again from a store that has it.
use failsafe.Prelude.{
  ℕ, ◌≡◌, refl, ap, subst, String, List, [], ◌∷◌, ok, arith, Result-cases, inl, inr,
}
use failsafe.Prelude.Stateful.{◌>>=◌, ◌>>◌, lift, ok-inj}
use failsafe.Core.Message.{DeviceId}
use failsafe.Transport.Blobs.{
  BlobHash, Hash, Bytes, Library, hash_seq, parse_hash, add_each, keep_collection, store_files,
  download_from, get_each, fetch_collection_files, peer_endpoint_id,
}

-- What the library promises: a blob or a collection that is there stays, and is read as it was written.
pub record Laws {S : Type 0} (library : Library S) : Type 1 where
  pub Has : S → Hash → Bytes → Type 0
  pub Names : S → Hash → List (String × Hash) → Type 0
  pub added :
      (s : S) (b : Bytes) (hash : Hash)
      → (library.add_bytes b s).1 ≡ ok hash
      → Has (library.add_bytes b s).0 hash b
  pub add-Has :
      (s : S) (b c : Bytes) (hash : Hash) → Has s hash b → Has (library.add_bytes c s).0 hash b
  pub tag-Has :
      (s : S) (t : Hash) (b : Bytes) (hash : Hash)
      → Has s hash b
      → Has (library.create_tag t s).0 hash b
  pub collection-Has :
      (s : S) (entries : List (String × Hash)) (b : Bytes) (hash : Hash)
      → Has s hash b
      → Has (library.store_collection entries s).0 hash b
  pub collected :
      (s : S) (entries : List (String × Hash)) (root : Hash)
      → (library.store_collection entries s).1 ≡ ok root
      → Names (library.store_collection entries s).0 root entries
  pub tag-Names :
      (s : S) (t root : Hash) (entries : List (String × Hash))
      → Names s root entries
      → Names (library.create_tag t s).0 root entries
  pub get-Has : (s : S) (hash : Hash) (b : Bytes) → Has s hash b → library.get_bytes hash s ≡ ok b
  pub load-Names :
      (s : S) (root : Hash) (entries : List (String × Hash))
      → Names s root entries
      → library.load_collection root s ≡ ok entries
  pub parse-to_hex : (hash : Hash) → library.parse_hex (library.to_hex hash) ≡ ok hash

module _ {S : Type 0} (library : Library S) (laws : Laws library) where
  open laws use {Has, Names}

  -- The store has the files under the hashes of the entries, with their names.
  abbrev pub HasEach : S → List (String × Hash) → List (String × Bytes) → Type 0
  HasEach s [] [] = Unit
  HasEach s [] (file ∷ files) = ⊥
  HasEach s (entry ∷ entries) [] = ⊥
  HasEach s (entry ∷ entries) (file ∷ files) =
      (entry.0 ≡ file.0) × Has s entry.1 file.1 × HasEach s entries files

  -- A store that has all the files of a collection, and knows its entries.
  pub record Holds (s : S) (hash : Hash) (files : List (String × Bytes)) : Type 0 where
    pub entries : List (String × Hash)
    pub knows : Names s hash entries
    pub has : HasEach s entries files

  HasEach-kept :
      (s t : S) (entries : List (String × Hash)) (files : List (String × Bytes))
      → ((hash : Hash) (b : Bytes) → Has s hash b → Has t hash b)
      → HasEach s entries files
      → HasEach t entries files
  HasEach-kept s t [] [] keeps h = tt
  HasEach-kept s t [] (file ∷ files) keeps h = absurd h
  HasEach-kept s t (entry ∷ entries) [] keeps h = absurd h
  HasEach-kept s t (entry ∷ entries) (file ∷ files) keeps h =
      (h.0, keeps entry.1 file.1 h.1, HasEach-kept s t entries files keeps h.2)

  get_each-HasEach :
      (s : S) (entries : List (String × Hash)) (files : List (String × Bytes))
      → HasEach s entries files
      → get_each library entries s ≡ (s, ok files)
  unfolding get_each ◌>>=◌ lift
  get_each-HasEach s [] [] h = refl
  get_each-HasEach s [] (file ∷ files) h = absurd h
  get_each-HasEach s (entry ∷ entries) [] h = absurd h
  get_each-HasEach s (entry ∷ entries) (file ∷ files) h =
      rw (laws.get-Has s entry.1 file.1 h.1)
        (rw (get_each-HasEach s entries files h.2) (rw h.0 refl))

  add_each-kept :
      (s : S) (files : List (String × Bytes)) (hash : Hash) (b : Bytes)
      → Has s hash b
      → Has (add_each library files s).0 hash b
  unfolding add_each ◌>>=◌ lift
  add_each-kept s [] hash b h = h
  add_each-kept s (file ∷ files) hash b h =
      let s' = (library.add_bytes file.1 s).0 in
      let h' = laws.add-Has s b file.1 hash h in
      elim (Result-cases (library.add_bytes file.1 s).1) [
        | inl (e, bad) ↦ rw bad h'
        | inr (first, good) ↦ rw good (elim (Result-cases (add_each library files s').1) [
          | inl (e, bad) ↦ rw bad (add_each-kept s' files hash b h')
          | inr (more, good') ↦ rw good' (add_each-kept s' files hash b h')
        ])
      ]

  add_each-HasEach :
      (s : S) (files : List (String × Bytes)) (entries : List (String × Hash))
      → (add_each library files s).1 ≡ ok entries
      → HasEach (add_each library files s).0 entries files
  unfolding add_each ◌>>=◌ lift
  add_each-HasEach s [] entries is = subst (λ es. HasEach s es []) (ok-inj is) tt
  add_each-HasEach s (file ∷ files) entries is =
      let s' = (library.add_bytes file.1 s).0 in
      elim (Result-cases (library.add_bytes file.1 s).1) [
        | inl (e, bad) ↦ absurd (ground (arith, bad, is))
        | inr (first, good) ↦ elim (Result-cases (add_each library files s').1) [
          | inl (e, bad) ↦ absurd (ground (arith, good, bad, is))
          | inr (more, good') ↦
              let t = (add_each library files s').0 in
              let each : HasEach t ((file.0, first) ∷ more) (file ∷ files) = (
                refl,
                add_each-kept s' files first file.1 (laws.added s file.1 first good),
                add_each-HasEach s' files more good',
              ) in
              let same : (file.0, first) ∷ more ≡ entries = ground (arith, good, good', is) in
              rw good (rw good' (subst (λ es. HasEach t es (file ∷ files)) same each))
        ]
      ]

  keep_collection-Holds :
      (s : S) (entries : List (String × Hash)) (files : List (String × Bytes)) (root : BlobHash)
      → HasEach s entries files
      → (keep_collection library entries s).1 ≡ ok root
      → (hash : Hash) × (root ≡ library.to_hex hash)
        × Holds (keep_collection library entries s).0 hash files
  unfolding keep_collection ◌>>=◌ ◌>>◌ lift
  keep_collection-Holds s entries files root h is =
      let s' = (library.store_collection entries s).0 in
      elim (Result-cases (library.store_collection entries s).1) [
        | inl (e, bad) ↦ absurd (ground (arith, bad, is))
        | inr (hash, good) ↦ elim (Result-cases (library.create_tag hash s').1) [
          | inl (e, bad) ↦ absurd (ground (arith, good, bad, is))
          | inr (u, good') ↦
              let t = (library.create_tag hash s').0 in
              let keeps : (x : Hash) (b : Bytes) → Has s x b → Has t x b =
                λ x b there. laws.tag-Has s' hash b x (laws.collection-Has s entries b x there) in
              let holds : Holds t hash files = record {
                entries = entries;
                knows = laws.tag-Names s' hash hash entries (laws.collected s entries hash good);
                has = HasEach-kept s t entries files keeps h;
              } in
              (hash, ground (arith, good, good', is), rw good (rw good' holds))
        ]
      ]

  store_files-Holds :
      (s : S) (files : List (String × Bytes)) (root : BlobHash)
      → (store_files library files s).1 ≡ ok root
      → (hash : Hash) × (root ≡ library.to_hex hash)
        × Holds (store_files library files s).0 hash files
  unfolding store_files ◌>>=◌
  store_files-Holds s files root is = elim (Result-cases (add_each library files s).1) [
    | inl (e, bad) ↦ absurd (ground (arith, bad, is))
    | inr (entries, good) ↦ rw good (
        keep_collection-Holds (add_each library files s).0 entries files root
          (add_each-HasEach s files entries good) (ground (arith, good, is)))
  ]

  module _ (book : List (DeviceId × String)) (show : DeviceId → String) where
    -- The files that a device has kept as a collection are those that a peer gets when it fetches the
    -- collection by its root, with their names and in their order, if the peer can reach the device
    -- and the download brings what the device has.
    pub fetch_collection_files-store_files :
        (files : List (String × Bytes)) (root : BlobHash) (peer : DeviceId) (provider : ℕ) (s r : S)
        → (store_files library files s).1 ≡ ok root
        → peer_endpoint_id library book show peer ≡ ok provider
        → ((hash : Hash)
            → Holds (store_files library files s).0 hash files
            → ((library.download hash hash_seq provider r).1 ≡ ok tt)
              × Holds (library.download hash hash_seq provider r).0 hash files)
        → (fetch_collection_files library book show peer root r).1 ≡ ok files
    unfolding fetch_collection_files download_from parse_hash ◌>>=◌ ◌>>◌ lift
    fetch_collection_files-store_files files root peer provider s r kept reached arrives =
        let known = store_files-Holds s files root kept in
        let hash = known.0 in
        let d = arrives hash known.2 in
        let r' = (library.download hash hash_seq provider r).0 in
        rw known.1 (
          rw (laws.parse-to_hex hash) (
            rw reached (
              rw d.0 (
                rw (laws.load-Names r' hash d.1.entries d.1.knows)
                  (ap (λ p. p.1) (get_each-HasEach r' d.1.entries files d.1.has))))))
