-- ===== src/Rpc/Frame.antt =====
-- examples/rpc/RpcChannel.cpp: the bytes of a message, and its header read back.
use ecron.Prelude.{
  List, Option, ap, append_assoc, arith, drop, drop-drop, length, length-append, refl, some, subst,
  sym, take, take-length, ℕ, ◌++◌, ◌+◌, ◌-◌, ◌<◌, ◌^◌, ◌∙◌, ◌≡◌, ◌≤◌,
}
use ecron.Rpc.Peek.{drop-prefix, take-prefix}
use ecron.Rpc.{Codec, IsLawful, bytes_of, make_header, parse_header}

module _ {Meta Message : Type 0} (k : Codec Meta Message) (law : IsLawful k) where
  pub length-make_header : (body_len meta_len : ℕ) → length (make_header k body_len meta_len) ≡ 12
  unfolding make_header
  length-make_header body_len meta_len = omega (
    arith,
    length-append (k.host_to_network body_len) (k.host_to_network meta_len),
    law.four_bytes body_len,
    law.four_bytes meta_len,
  )

  pub parse_header-make_header :
      (body_len meta_len : ℕ)
      → body_len < 2 ^ 32
      → meta_len ≤ body_len
      → parse_header k (make_header k body_len meta_len) ≡ some (body_len, meta_len)
  unfolding parse_header make_header
  parse_header-make_header body_len meta_len fits le =
      rw
        (
          take-prefix 4 (k.host_to_network body_len) (k.host_to_network meta_len)
              (law.four_bytes body_len),
          drop-prefix 4 (k.host_to_network body_len) (k.host_to_network meta_len)
              (law.four_bytes body_len),
          take-length 4 (k.host_to_network meta_len) (omega (arith, law.four_bytes meta_len)),
          law.same_number body_len fits,
          law.same_number meta_len (omega arith),
        )
        (ground arith)

module _ {Meta Message : Type 0} (k : Codec Meta Message) where
  -- The bytes of a message as the protocol describes them.
  unfoldable pub packed : Meta → Option Message → List ℕ
  packed meta msg =
      make_header k (length (k.meta_bytes meta ++ bytes_of k msg)) (length (k.meta_bytes meta))
      ++ (k.meta_bytes meta ++ bytes_of k msg)

  -- Where the parts of a message stand in bytes that begin with it.
  pub record Parts (meta : Meta) (msg : Option Message) (rest q : List ℕ) : Type 0 where
    pub header :
        take 12 q
        ≡ make_header k (length (k.meta_bytes meta ++ bytes_of k msg)) (length (k.meta_bytes meta))
    pub meta_part : take (length (k.meta_bytes meta)) (drop 12 q) ≡ k.meta_bytes meta
    pub message_part :
        take
          (length (k.meta_bytes meta ++ bytes_of k msg) - length (k.meta_bytes meta))
          (drop (12 + length (k.meta_bytes meta)) q)
        ≡ bytes_of k msg
    pub behind : drop (12 + length (k.meta_bytes meta ++ bytes_of k msg)) q ≡ rest
    pub all : length q ≡ 12 + length (k.meta_bytes meta ++ bytes_of k msg) + length rest

split :
    {A : Type 0} (h m x rest : List A)
    → (take (length h) ((h ++ (m ++ x)) ++ rest) ≡ h)
      × (take (length m) (drop (length h) ((h ++ (m ++ x)) ++ rest)) ≡ m)
      × (take (length x) (drop (length h + length m) ((h ++ (m ++ x)) ++ rest)) ≡ x)
      × (drop (length h + length (m ++ x)) ((h ++ (m ++ x)) ++ rest) ≡ rest)
split h m x rest =
    let whole = append_assoc h (m ++ x) rest in
    let body = append_assoc m x rest in
    let behind_header =
      ap (drop (length h)) whole ∙ drop-prefix (length h) h ((m ++ x) ++ rest) refl in
    (
      ap (take (length h)) whole ∙ take-prefix (length h) h ((m ++ x) ++ rest) refl,
      ap (take (length m)) (behind_header ∙ body) ∙ take-prefix (length m) m (x ++ rest) refl,
      ap (take (length x)) (
            sym
              (drop-drop (length m) (length h) (length h + length m) ((h ++ (m ++ x)) ++ rest) refl)
            ∙ ap (drop (length m)) (behind_header ∙ body)
            ∙ drop-prefix (length m) m (x ++ rest) refl)
          ∙ take-prefix (length x) x rest refl,
      drop-prefix (length h + length (m ++ x)) (h ++ (m ++ x)) rest (length-append h (m ++ x)),
    )

module _ {Meta Message : Type 0} (k : Codec Meta Message) (law : IsLawful k) where
  pub packed-Parts :
      (meta : Meta) (msg : Option Message) (rest : List ℕ)
      → Parts k meta msg rest (packed k meta msg ++ rest)
  unfolding packed
  packed-Parts meta msg rest =
      let m = k.meta_bytes meta in
      let x = bytes_of k msg in
      let h = make_header k (length (m ++ x)) (length m) in
      let twelve : length h ≡ 12 = length-make_header k law (length (m ++ x)) (length m) in
      let (a, b, c, d) = split h m x rest in
      let more : length (m ++ x) ≡ length m + length x = length-append m x in
      let minus : length (m ++ x) - length m ≡ length x = omega (arith, more) in
      record {
        header = subst (λ n. take n ((h ++ (m ++ x)) ++ rest) ≡ h) twelve a;
        meta_part = subst (λ n. take (length m) (drop n ((h ++ (m ++ x)) ++ rest)) ≡ m) twelve b;
        message_part =
            ap (λ n. take n (drop (12 + length m) ((h ++ (m ++ x)) ++ rest))) minus
            ∙ subst (λ n. take (length x) (drop (n + length m) ((h ++ (m ++ x)) ++ rest)) ≡ x)
                twelve c;
        behind = subst (λ n. drop (n + length (m ++ x)) ((h ++ (m ++ x)) ++ rest) ≡ rest) twelve d;
        all = omega (arith, length-append (h ++ (m ++ x)) rest, length-append h (m ++ x), twelve);
      }
