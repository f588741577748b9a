-- ===== src/Rpc/Peek.antt =====
-- examples/rpc/RpcChannel.cpp: what process reads of its buffer.
use ecron.Prelude.{
  List, ap, arith, drop, drop-append_le, drop-drop, drop-length, length, ok, refl, take,
  take-append_le, take-drop-take, take-length, ℕ, ◌++◌, ◌+◌, ◌∙◌, ◌≡◌, ◌≤◌,
}
use ecron.Buffer.{Buffer, readable_bytes}
use ecron.Buffer.Inv.{IsValid, contents, readable_bytes-eq}
use ecron.Rpc.{peek}

-- Within the readable bytes, what is read is that part of the contents.
pub peek-eq :
    (b : Buffer) (i n : ℕ)
    → IsValid b
    → i + n ≤ readable_bytes b
    → peek b i n ≡ ok (take n (drop i (contents b)))
unfolding peek
peek-eq b i n v h =
    let inside = readable_bytes-eq b v in
    rw
      (
        drop-drop i b.read_index (b.read_index + i) (take b.write_index b.buff) refl,
        take-drop-take n (b.read_index + i) b.write_index b.buff (omega (arith, v)),
      )
      (ground (arith, v))

module _ {ℓ} {A : Type ℓ} where
  pub take-prefix : (n : ℕ) (xs ys : List A) → length xs ≡ n → take n (xs ++ ys) ≡ xs
  take-prefix n xs ys e = take-append_le n xs ys (omega arith) ∙ take-length n xs (omega arith)

  pub drop-prefix : (n : ℕ) (xs ys : List A) → length xs ≡ n → drop n (xs ++ ys) ≡ ys
  drop-prefix n xs ys e =
      drop-append_le n xs ys (omega arith) ∙ ap (λ l. l ++ ys) (drop-length n xs (omega arith))
