-- ===== src/Text/Bytes.antt =====
-- A text as Go keeps it, its bytes in UTF-8, and `truncate` of server/http.go.
use vessica_knowledge_server.Base.{
  ℕ, ◌+◌, ◌/◌, ◌%◌, String, List, [], ◌∷◌, ◌++◌, ltb, leb, length, take, if◌then◌else◌,
}
use vessica_knowledge_server.Text.{runes}

-- A byte that continues a rune holds six bits.
abbrev continuing : ℕ → ℕ
continuing n = 0x80 + n % 0x40

utf8 : ℕ → List ℕ
utf8 c =
    if ltb c 0x80
    then c ∷ []
    else if ltb c 0x800
    then (0xc0 + c / 0x40) ∷ (continuing c) ∷ []
    else if ltb c 0x1_0000
    then (0xe0 + c / 0x1000) ∷ (continuing (c / 0x40)) ∷ (continuing c) ∷ []
    else (0xf0 + c / 0x4_0000)
      ∷ (continuing (c / 0x1000))
      ∷ (continuing (c / 0x40))
      ∷ (continuing c)
      ∷ []

bytes_from : List ℕ → List ℕ
unfolding utf8
bytes_from [] = []
bytes_from (c ∷ cs) = utf8 c ++ bytes_from cs

unfoldable pub bytes_of : String → List ℕ
unfolding bytes_from
bytes_of s = bytes_from (runes s)

unfoldable pub truncate : String → ℕ → List ℕ
unfolding bytes_of
truncate v n =
    let bytes = bytes_of v in if leb (length bytes) n then bytes else take n bytes ++ bytes_of "…"

-- Lists that are appended to one, the first one first
abbrev pub in_order : {A : Type 0} → List A → List A → List A → List A
in_order xs ys zs = xs ++ (ys ++ zs)
