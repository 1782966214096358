-- ===== src/Json.antt =====
-- The files package/*/*/*_json.hpp: which names of a JSON object stand for which fields of an
-- object of options. The lists of members are in the module Schemas.
--
-- What is made of such a list is wjson's, and the list of a base class is the library's: neither is
-- here.
pub mod Schemas
use text.Mathlib.Text.{◌==◌ as str_eq}
use wfc_io.Prelude.{Bool, true, false, not, ◌&&◌, ◌||◌, List, [], ◌∷◌, String}

-- How the text of a member is read: as a value of its type, as milliseconds with a unit, as raw
-- text, through a pointer that may be null, or as an array.
pub data Kind : Type 0 where
  plain interval raw pointer array : Kind

-- `json::member`, with the field that it points to, and `json::base`, with the name of the base.
pub data Entry (C : Type 0) : Type 1 where
  member : String → Kind → (V : Type 0) → (C → V) → (V → C → C) → Entry C
  base : String → Entry C

-- `json::object`: its member list, and whether it refuses names that are not in the list.
pub record Schema (C : Type 0) : Type 1 where
  pub members : List (Entry C)
  pub strict_mode : Bool

abbrev pub occurs : String → List String → Bool
occurs s [] = false
occurs s (t ∷ ts) = str_eq s t || occurs s ts

abbrev pub distinct : List String → Bool
distinct [] = true
distinct (s ∷ ss) = not (occurs s ss) && distinct ss
