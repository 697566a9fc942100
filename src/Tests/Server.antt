-- ===== src/Tests/Server.antt =====
-- Pages, rate limit and options of a server.
use Prim.Native.Nat.{min}
use vessica_knowledge_server.Base.{
  ℕ, zero, suc, ◌+◌, ◌-◌, String, ◌≡◌, ◌⊎◌, true, refl, inl, inr, ap, arith, none, some, List, [],
  ◌∷◌, length, pos, eq_iff, ok, Bool-cases,
}
use vessica_knowledge_server.Models.{WriteOptions}
use vessica_knowledge_server.Service.Rules.{is_empty}
use vessica_knowledge_server.Service.Writing.{validate_write}
use vessica_knowledge_server.Text.{runes}
use vessica_knowledge_server.Server.Pages.{Codec}
use vessica_knowledge_server.Server.Pages.Walk.{IsCodec, walk, walk-items}
use vessica_knowledge_server.Server.Rates.{Rates, window}
use vessica_knowledge_server.Server.Rates.Limit.{Call, asked, admitted, admitted_in_window}
use vessica_knowledge_server.Server.Options.{Settings, Headers, opts}
use vessica_knowledge_server.Server.Options.Valid.{opts-validate_write}

-- A number in strokes, behind one more stroke.
abbrev strokes : ℕ → String
strokes zero = ""
strokes (suc n) = String.◌∷◌ "|" (strokes n)

abbrev unary : Codec
unary = record {
  encode = λ t. t;
  decode = λ t. some t;
  itoa = λ n. strokes (suc n);
  atoi = λ t. pos (length (runes t) - 1);
}

strokes-length : (n : ℕ) → length (runes (strokes n)) ≡ n
strokes-length zero = refl
strokes-length (suc n) = ap suc (strokes-length n)

unary-IsCodec : IsCodec unary
unary-IsCodec = record {
  decode_encode = λ t. refl;
  atoi_itoa = λ n. ap pos (omega (arith, strokes-length n));
  not_empty = λ n. elim (Bool-cases (is_empty (strokes (suc n)))) [
    | inl same_text ↦
        let none_left : suc (length (runes (strokes n))) ≡ 0 =
          ap (λ t. length (runes t)) ((eq_iff (strokes (suc n)) "").0 same_text) in
        ground (arith, none_left)
    | inr differs ↦ differs
  ];
  decode_empty = refl;
  atoi_empty = refl;
}

abbrev names : List String
names = "a" ∷ "b" ∷ "c" ∷ []

walk-items_example : walk unary names "||" (length names + 1) "" ≡ some names
walk-items_example = walk-items unary names "||" unary-IsCodec

abbrev nearly_full : Rates
nearly_full = ("Bearer t", record { started = 5; count = 599 }) ∷ []

abbrev calls : List Call
calls = ("Bearer t", 6) ∷ ("Bearer u", 7) ∷ ("Bearer t", 8) ∷ []

admitted_in_window_example :
    admitted "Bearer t" calls nearly_full ≡ min (600 - 599) (asked "Bearer t" calls)
unfolding window
admitted_in_window_example =
    admitted_in_window "Bearer t" 5 calls nearly_full (omega arith) refl
      (omega arith, (omega arith, (omega arith, tt)))

abbrev settings : Settings
settings = record { token = "t"; export_token = ""; default_workspace = "w1" }

abbrev headers : Headers
headers = record {
  authorization = "Bearer t";
  idempotency_key = "k1";
  actor_id = "u1";
  actor_type = "user";
  provenance_source = "api";
  provenance_id = "";
  query_workspace = "";
}

abbrev built : WriteOptions
built = record {
  workspace_id = "w1";
  idempotency_key = "k1";
  actor = record { id = "u1"; type = "user" };
  provenance = record { source = "api"; source_id = ""; source_url = ""; detail = none };
}

built-opts : opts settings headers "" ≡ ok built
unfolding opts
built-opts = refl

opts-validate_write_example :
    (validate_write {S = ℕ} built 7 ≡ (ok tt, 7))
    × ((is_empty settings.default_workspace ≡ true)
        ⊎ (built.workspace_id ≡ settings.default_workspace))
opts-validate_write_example = opts-validate_write settings headers "" built 7 (inl refl) built-opts
