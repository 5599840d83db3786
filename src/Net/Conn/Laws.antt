-- ===== src/Net/Conn/Laws.antt =====
-- No byte of the stream is lost, repeated or reordered.
use mathlib.Core.List.{append_assoc}
use lambda.Base.{
  ℕ, ◌≤◌, true, false, List, [], ◌∷◌, ◌++◌, ◌≡◌, ◌∙◌, refl, sym, ap, arith, Bytes, length, is_empty,
  take, drop, take-append-drop, length-take, ok, ◌⊎◌,
}
use lambda.Net.Conn.{Recv, Send, Conn, push_back, receive, read, write}

-- The bytes that `recv` will still hand over.
abbrev pub arriving : List Recv → Bytes
arriving [] = []
arriving (Recv.bytes bs ∷ rest) = bs ++ arriving rest
arriving (Recv.finished ∷ rest) = arriving rest
arriving (Recv.timed_out ∷ rest) = arriving rest
arriving (Recv.disconnected ∷ rest) = arriving rest
arriving (Recv.failed ∷ rest) = arriving rest

abbrev pub TakesUpTo : ℕ → Bytes → Bytes → Conn → Type 0
TakesUpTo n before chunk after = (before ≡ chunk ++ arriving after.incoming) × (length chunk ≤ n)

nil_of_is_empty : (xs : Bytes) → is_empty xs ≡ true → xs ≡ []
nil_of_is_empty [] h = refl
nil_of_is_empty (x ∷ xs) h = cc

arriving-push_back :
    (bs : Bytes) (rest : List Recv) → arriving (push_back bs rest) ≡ bs ++ arriving rest
arriving-push_back [] rest = refl
arriving-push_back (b ∷ bs) rest = refl

split_arrival :
    (n : ℕ) (bs : Bytes) (rest : List Recv)
    → bs ++ arriving rest ≡ take n bs ++ arriving (push_back (drop n bs) rest)
split_arrival n bs rest = rw (arriving-push_back (drop n bs) rest) (
    ap (λ (t : Bytes). t ++ arriving rest) (sym (take-append-drop n bs))
    ∙ append_assoc (take n bs) (drop n bs) (arriving rest))

receive_lem :
    (c : Conn) (n : ℕ) (script : List Recv) (chunk : Bytes) (after : Conn)
    → script ≡ c.incoming
    → receive c n script ≡ ok (chunk, after)
    → TakesUpTo n (arriving script) chunk after
unfolding receive
receive_lem c n [] chunk after p h = ground (arith, p)
receive_lem c n (Recv.bytes bs ∷ rest) chunk after p h =
    ground (arith, split_arrival n bs rest, length-take n bs, nil_of_is_empty (take n bs))
receive_lem c n _ chunk after p h = ground arith

-- A read hands over at most as many bytes as it is asked for, and they are the next of the stream.
pub read-TakesUpTo :
    (c : Conn) (n : ℕ) (chunk : Bytes) (after : Conn)
    → read c n ≡ ok (chunk, after)
    → TakesUpTo n (arriving c.incoming) chunk after
unfolding read
read-TakesUpTo c n chunk after h = ground (arith, receive_lem c n c.incoming chunk after refl)

-- A write puts all bytes on the wire or closes the connection, and then it wrote none.
pub write_lem :
    (c : Conn) (buf : Bytes) (n : ℕ) (after : Conn)
    → write c buf ≡ ok (n, after)
    → ((n ≡ length buf) × (after.sent ≡ c.sent ++ buf) × (after.is_open ≡ true))
      ⊎ ((n ≡ 0) × (after.sent ≡ c.sent) × (after.is_open ≡ false))
unfolding write
write_lem c buf n after h = go c.outcomes refl
  where
    go :
        (o : List Send)
        → c.outcomes ≡ o
        → ((n ≡ length buf) × (after.sent ≡ c.sent ++ buf) × (after.is_open ≡ true))
          ⊎ ((n ≡ 0) × (after.sent ≡ c.sent) × (after.is_open ≡ false))
    go [] e = ground arith
    go (Send.complete ∷ rest) e = ground arith
    go (Send.short k ∷ rest) e = ground arith
    go (Send.gone ∷ rest) e = ground arith
