-- ===== src/Rpc/Plain.antt =====
-- examples/rpc/rpc_meta.proto: a plain codec, for the tests. A text is its characters, each one more
-- than its number, and a 0.
use ecron.Prelude.{
  List, Option, String, [], ap, arith, length, none, refl, some, suc, zero, ℕ, ◌%◌, ◌*◌, ◌+◌, ◌/◌,
  ◌^◌, ◌∙◌, ◌∷◌, ◌≡◌,
}
use Prim.{tt}
use Prim.Native.Nat.{Ordering, lt, eq, gt, compare}
use Prim.Native.Char.{Char, char, code, IsScalar}
use Prim.Native.String.{String}
use ecron.Rpc.{Codec, IsLawful}
use ecron.Rpc.Calls.{RpcMeta, RpcRequestMeta, RpcResponseMeta}

abbrev pub big_endian : ℕ → List ℕ
big_endian n = n / 2 ^ 24 ∷ n / 2 ^ 16 % 256 ∷ n / 256 % 256 ∷ n % 256 ∷ []

abbrev pub number : List ℕ → ℕ
number [] = 0
number (a ∷ []) = a
number (a ∷ b ∷ []) = a * 256 + b
number (a ∷ b ∷ c ∷ []) = (a * 256 + b) * 256 + c
number (a ∷ b ∷ c ∷ d ∷ rest) = ((a * 256 + b) * 256 + c) * 256 + d

-- Where three comparisons tell that a number is a character's.
abbrev Less : Ordering → Type 0
Less lt = Unit
Less eq = ⊥
Less gt = ⊥

abbrev Both : Ordering → Ordering → Type 0
Both lt o = Less o
Both eq o = ⊥
Both gt o = ⊥

abbrev Scalar : Ordering → Ordering → Ordering → Type 0
Scalar lt o p = Unit
Scalar eq o p = Both o p
Scalar gt o p = Both o p

abbrev less? : (o : Ordering) → Option (Less o)
less? lt = some tt
less? eq = none
less? gt = none

abbrev both? : (o p : Ordering) → Option (Both o p)
both? lt p = less? p
both? eq p = none
both? gt p = none

abbrev scalar? : (o p q : Ordering) → Option (Scalar o p q)
scalar? lt p q = some tt
scalar? eq p q = both? p q
scalar? gt p q = both? p q

less?-some : (o : Ordering) (h : Less o) → less? o ≡ some h
less?-some lt h = refl
less?-some eq h = absurd h
less?-some gt h = absurd h

both?-some : (o p : Ordering) (h : Both o p) → both? o p ≡ some h
both?-some lt p h = less?-some p h
both?-some eq p h = absurd h
both?-some gt p h = absurd h

scalar?-some : (o p q : Ordering) (h : Scalar o p q) → scalar? o p q ≡ some h
scalar?-some lt p q h = refl
scalar?-some eq p q h = both?-some p q h
scalar?-some gt p q h = both?-some p q h

abbrev made : (n : ℕ) → Option (IsScalar n) → Option Char
made n none = none
made n (some h) = some (char n h)

abbrev char_of : ℕ → Option Char
char_of n = made n (scalar? (compare n 55296) (compare 57343 n) (compare n 1114112))

char_of-code : (c : Char) → char_of (code c) ≡ some c
char_of-code (char n h) =
    ap (made n) (scalar?-some (compare n 55296) (compare 57343 n) (compare n 1114112) h)

abbrev put_text : String → List ℕ → List ℕ
put_text String.[] rest = 0 ∷ rest
put_text (String.◌∷◌ c s) rest = suc (code c) ∷ put_text s rest

abbrev put_char : Option Char → Option (String × List ℕ) → Option (String × List ℕ)
put_char none r = none
put_char (some c) none = none
put_char (some c) (some r) = some (String.◌∷◌ c r.0, r.1)

abbrev get_text : List ℕ → Option (String × List ℕ)
get_text [] = none
get_text (zero ∷ rest) = some ("", rest)
get_text (suc n ∷ rest) = put_char (char_of n) (get_text rest)

get_text-put_text : (s : String) (rest : List ℕ) → get_text (put_text s rest) ≡ some (s, rest)
get_text-put_text String.[] rest = refl
get_text-put_text (String.◌∷◌ c s) rest =
    ap (λ o. put_char o (get_text (put_text s rest))) (char_of-code c)
    ∙ ap (put_char (some c)) (get_text-put_text s rest)

-- A 0 where the field is not there, else a 1 and the field.
abbrev put_request : Option RpcRequestMeta → List ℕ → List ℕ
put_request none rest = 0 ∷ rest
put_request (some r) rest = 1 ∷ put_text r.service_name (put_text r.method_name rest)

abbrev put_response : Option RpcResponseMeta → List ℕ
put_response none = 0 ∷ []
put_response (some r) = 1 ∷ r.error_code ∷ put_text r.error_text []

abbrev with_method : String → Option (String × List ℕ) → Option (Option RpcRequestMeta × List ℕ)
with_method service none = none
with_method service (some t) =
    some (some (record { service_name = service; method_name = t.0 }), t.1)

abbrev get_names : Option (String × List ℕ) → Option (Option RpcRequestMeta × List ℕ)
get_names none = none
get_names (some r) = with_method r.0 (get_text r.1)

abbrev get_request : List ℕ → Option (Option RpcRequestMeta × List ℕ)
get_request [] = none
get_request (zero ∷ rest) = some (none, rest)
get_request (suc n ∷ rest) = get_names (get_text rest)

abbrev get_error : ℕ → Option (String × List ℕ) → Option (Option RpcResponseMeta)
get_error e none = none
get_error e (some t) = some (some (record { error_code = e; error_text = t.0 }))

abbrev get_response : List ℕ → Option (Option RpcResponseMeta)
get_response [] = none
get_response (zero ∷ rest) = some none
get_response (suc n ∷ []) = none
get_response (suc n ∷ e ∷ rest) = get_error e (get_text rest)

get_request-put_request :
    (r : Option RpcRequestMeta) (rest : List ℕ) → get_request (put_request r rest) ≡ some (r, rest)
get_request-put_request none rest = refl
get_request-put_request (some r) rest =
    ap get_names (get_text-put_text r.service_name (put_text r.method_name rest))
    ∙ ap (with_method r.service_name) (get_text-put_text r.method_name rest)

get_response-put_response : (r : Option RpcResponseMeta) → get_response (put_response r) ≡ some r
get_response-put_response none = refl
get_response-put_response (some r) = ap (get_error r.error_code) (get_text-put_text r.error_text [])

abbrev put_meta : RpcMeta → List ℕ
put_meta m = m.correlation_id ∷ put_request m.request (put_response m.response)

abbrev with_id : ℕ → Option RpcRequestMeta → Option (Option RpcResponseMeta) → Option RpcMeta
with_id id q none = none
with_id id q (some r) = some (record { request = q; response = r; correlation_id = id })

abbrev with_rest : ℕ → Option (Option RpcRequestMeta × List ℕ) → Option RpcMeta
with_rest id none = none
with_rest id (some r) = with_id id r.0 (get_response r.1)

abbrev get_meta : List ℕ → Option RpcMeta
get_meta [] = none
get_meta (id ∷ rest) = with_rest id (get_request rest)

get_meta-put_meta : (m : RpcMeta) → get_meta (put_meta m) ≡ some m
get_meta-put_meta m =
    ap (with_rest m.correlation_id) (get_request-put_request m.request (put_response m.response))
    ∙ ap (with_id m.correlation_id m.request) (get_response-put_response m.response)

-- A message is one number.
abbrev pub plain : Codec RpcMeta ℕ
plain = record {
  network_to_host = number;
  host_to_network = big_endian;
  parse_meta = get_meta;
  meta_bytes = put_meta;
  meta_size = λ m. length (put_meta m);
  message_bytes = λ x. x ∷ [];
  message_size = λ x. 1;
}

pub plain-IsLawful : IsLawful plain
plain-IsLawful = record {
  four_bytes = λ n. refl;
  same_number = λ n h. omega arith;
  parsed = get_meta-put_meta;
  meta_length = λ m. refl;
  message_length = λ x. refl;
}
