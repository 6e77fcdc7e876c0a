-- ===== src/Url.antt =====
-- app/cppUtils/UrlContex/UrlContex.cpp and UrlContex.h: the request line of HTTP. A string is a list of
-- characters shorter than 2^31, so an `int` holds each index; an index of -1 is `none`.
pub mod Strings
pub mod Parse
pub mod Returns
mod Tests
use package_compile_sys.Common.{
  ℕ, zero, suc, ◌+◌, List, [], ◌∷◌, ◌++◌, Option, none, some, Bool, true, false, ◌==◌, ◌&&◌,
  if◌then◌else◌, take, drop, length,
}

abbrev pub amp : ℕ
amp = 38

abbrev pub equals : ℕ
equals = 61

abbrev pub query : ℕ
query = 63

abbrev pub space : ℕ
space = 32

abbrev pub slash : ℕ
slash = 47

-- Two ends of a line.
abbrev pub blank_line : List ℕ
blank_line = 13 ∷ 10 ∷ 13 ∷ 10 ∷ []

abbrev pub up : Option ℕ → Option ℕ
up none = none
up (some n) = some (suc n)

-- `std::string::find_first_of` of one character.
unfoldable pub find_first_of : ℕ → List ℕ → Option ℕ
find_first_of c [] = none
find_first_of c (x ∷ s) = let rest = find_first_of c s in if x == c then some 0 else up rest

unfoldable pub starts_with : List ℕ → List ℕ → Bool
starts_with [] s = true
starts_with (c ∷ word) [] = false
starts_with (c ∷ word) (x ∷ s) = x == c && starts_with word s

-- `std::string::find` of a word that is not empty.
unfoldable pub find : List ℕ → List ℕ → Option ℕ
find word [] = none
find word (x ∷ s) = let rest = find word s in if starts_with word (x ∷ s) then some 0 else up rest

-- `substr(0, idx)`, the whole string for an index of -1.
abbrev pub until : Option ℕ → List ℕ → List ℕ
until none s = s
until (some idx) s = take idx s

-- `UrlParam`.
pub record UrlParam : Type 0 where
  pub key : List ℕ
  pub value : List ℕ

pub record UrlContex : Type 0 where
  pub m_method : List ℕ
  pub m_cmd : List ℕ
  pub m_pars : List UrlParam

-- The end of the last part: a space, or else a blank line.
unfoldable pub part_end : List ℕ → Option ℕ
part_end tail = elim (find_first_of space tail) [
  | some idx ↦ some idx
  | none ↦ find blank_line tail
]

-- The key and the value of `paraStr`.
unfoldable pub para_of : List ℕ → Option UrlParam
para_of str = elim (find_first_of equals str) [
  | none ↦ none
  | some idx ↦ some (record { key = take idx str; value = drop (idx + 1) str })
]

-- `mPars.push_back(para)`.
unfoldable pub push_para : UrlContex → UrlParam → UrlContex
push_para this para = record this { m_pars = this.m_pars ++ para ∷ [] }

-- `paraParse`; `none` is no result of the code, but a fuel that has run out.
unfoldable pub para_parse : ℕ → UrlContex → List ℕ → Option (Bool × UrlContex)
para_parse zero this tail = none
para_parse (suc fuel) this tail = elim (find_first_of amp tail) [
  | none ↦ elim (para_of (until (part_end tail) tail)) [
    | none ↦ some (false, this)
    | some para ↦ some (true, push_para this para)
  ]
  | some idx ↦ elim (para_of (take idx tail)) [
    | none ↦ some (false, this)
    | some para ↦ para_parse fuel (push_para this para) (drop (idx + 1) tail)
  ]
]

-- What `parse` does behind the method.
unfoldable pub parse_cmd : UrlContex → List ℕ → Option (Bool × UrlContex)
parse_cmd this tail = elim (find_first_of query tail) [
  | none ↦ some (true, record this { m_cmd = until (part_end tail) tail })
  | some idx ↦
      para_parse (suc (length tail)) (record this { m_cmd = take idx tail }) (drop (idx + 1) tail)
]

unfoldable pub parse : UrlContex → List ℕ → Option (Bool × UrlContex)
parse this url = elim (find (space ∷ slash ∷ []) url) [
  | none ↦ some (false, this)
  | some idx ↦ parse_cmd (record this { m_method = take idx url }) (drop (idx + 2) url)
]

unfoldable pub same : List ℕ → List ℕ → Bool
same [] [] = true
same [] (y ∷ t) = false
same (x ∷ s) [] = false
same (x ∷ s) (y ∷ t) = x == y && same s t

-- The loop of `getParaVal`.
unfoldable pub find_para : List UrlParam → List ℕ → List ℕ
find_para [] key = []
find_para (i ∷ pars) key = let rest = find_para pars key in if same i.key key then i.value else rest

unfoldable pub get_para_val : UrlContex → List ℕ → List ℕ
get_para_val this key = find_para this.m_pars key
