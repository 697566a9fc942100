-- ===== src/Text.antt =====
-- The functions of Go's `strings` that knowledge/service.go and knowledge/retrieval.go search with, on
-- the runes of a text.
pub mod Bytes
use Prim.Native.Char.{code}
use Prim.Native.String.{String, count}
use vessica_knowledge_server.Base.{
  ℕ, ◌/◌, Bool, true, false, ◌&&◌, ◌||◌, List, [], ◌∷◌, reverse, ltb, leb, nat_eq, ◌==◌,
  if◌then◌else◌,
}

abbrev pub runes : String → List ℕ
runes String.[] = []
runes (String.◌∷◌ c s) = code c ∷ runes s

-- `unicode.IsSpace`
pub is_space : ℕ → Bool
is_space c =
    leb 0x09 c && leb c 0x0d
    || nat_eq c 0x20
    || nat_eq c 0x85
    || nat_eq c 0xa0
    || nat_eq c 0x1680
    || leb 0x2000 c && leb c 0x200a
    || nat_eq c 0x2028
    || nat_eq c 0x2029
    || nat_eq c 0x202f
    || nat_eq c 0x205f
    || nat_eq c 0x3000

-- `strings.HasPrefix`
pub has_prefix : List ℕ → List ℕ → Bool
has_prefix s [] = true
has_prefix [] (d ∷ ds) = false
has_prefix (c ∷ cs) (d ∷ ds) = nat_eq c d && has_prefix cs ds

-- `strings.Contains`
unfoldable pub contains : List ℕ → List ℕ → Bool
unfolding has_prefix
contains [] t = has_prefix [] t
contains (c ∷ cs) t = has_prefix (c ∷ cs) t || contains cs t

drop_space : List ℕ → List ℕ
unfolding is_space
drop_space [] = []
drop_space (c ∷ cs) = let rest = drop_space cs in if is_space c then rest else c ∷ cs

-- `strings.TrimSpace`
unfoldable pub trim_space : List ℕ → List ℕ
unfolding drop_space
trim_space s = reverse (drop_space (reverse (drop_space s)))

push_word : List ℕ → List (List ℕ) → List (List ℕ)
push_word [] words = words
push_word (c ∷ cs) words = reverse (c ∷ cs) ∷ words

-- `word` holds the runes of the word that is being read, the last one first.
fields_from : List ℕ → List ℕ → List (List ℕ)
unfolding is_space push_word
fields_from word [] = push_word word []
fields_from word (c ∷ cs) =
    let broken = fields_from [] cs in
    let longer = fields_from (c ∷ word) cs in if is_space c then push_word word broken else longer

drop_blank : String → String
unfolding is_space
drop_blank String.[] = String.[]
drop_blank (String.◌∷◌ c s) =
    let rest = drop_blank s in if is_space (code c) then rest else String.◌∷◌ c s

drop_trailing : String → String
unfolding is_space
drop_trailing String.[] = String.[]
drop_trailing (String.◌∷◌ c s) =
    let rest = drop_trailing s in
    if is_space (code c) && rest == "" then String.[] else String.◌∷◌ c rest

-- `strings.TrimSpace`, as a text.
unfoldable pub trimmed : String → String
unfolding drop_blank drop_trailing
trimmed s = drop_trailing (drop_blank s)

unfoldable pub same_runes : List ℕ → List ℕ → Bool
same_runes [] [] = true
same_runes (c ∷ cs) (d ∷ ds) = nat_eq c d && same_runes cs ds
same_runes _ _ = false

cut_from : (ℕ → Bool) → List ℕ → List ℕ → List (List ℕ)
unfolding push_word
cut_from cut word [] = push_word word []
cut_from cut word (c ∷ cs) =
    let broken = cut_from cut [] cs in
    let longer = cut_from cut (c ∷ word) cs in if cut c then push_word word broken else longer

-- `strings.FieldsFunc`
unfoldable pub fields_func : (ℕ → Bool) → List ℕ → List (List ℕ)
unfolding cut_from
fields_func cut s = cut_from cut [] s

-- `strings.Fields`
unfoldable pub fields : List ℕ → List (List ℕ)
unfolding fields_from
fields s = fields_from [] s

-- `tokens` of knowledge/service.go: a quarter of the runes, at least 1.
unfoldable pub tokens : String → ℕ
tokens s = let n = count s / 4 in if ltb n 1 then 1 else n
