-- ===== src/Transport/Blobs/Below.antt =====
-- Exporting a collection: where the files and directories lie that it makes.
use failsafe.Prelude.{◌≡◌, refl, false, String, List, [], ◌∷◌, ◌++◌, All, string_key}
use failsafe.Prelude.Strings.{Without}
use failsafe.Transport.Blobs.{FilePath, Host}
use failsafe.Transport.Blobs.Export.{is_not_normal}

-- A component that names something in a directory: not empty, not the directory or its parent, and
-- without a slash.
abbrev pub IsNormal : String → Type 0
IsNormal part = (is_not_normal part ≡ false) × Without 47 part

pub record IsIn (dest path : FilePath) : Type 0 where
  pub parts : List String
  pub joined : path ≡ dest ++ parts
  pub normal : All IsNormal parts

-- A component in a directory that is in `dest`.
pub record IsBelow (dest path : FilePath) : Type 0 where
  pub dir : FilePath
  pub part : String
  pub joined : path ≡ dir ++ part ∷ []
  pub is_in : IsIn dest dir
  pub normal : IsNormal part

abbrev one_more :
    (dest path : FilePath) (part : String)
    → IsIn dest path
    → IsNormal part
    → IsBelow dest (path ++ part ∷ [])
one_more dest path part h normal = record {
  dir = path;
  part = part;
  joined = refl;
  is_in = h;
  normal = normal;
}

-- How `push` of Unix adds a part: one without a slash is one component.
abbrev pub IsUnix : (FilePath → String → FilePath) → Type 0
IsUnix push =
    (path : FilePath) (part : String) → Without 47 part → push path part ≡ path ++ part ∷ []

-- All directories that were made are in `dest`, and all files that were to be written are below it.
abbrev pub Inside : {S : Type 0} → FilePath → Host S → Type 0
Inside dest host = All (IsIn dest) host.made × All (IsBelow dest) host.targets
