-- ===== src/Osquery/Thrift/Message.antt =====
-- A whole message of agent/src/osquery/thrift.rs.
use mathlib.Core.List.{append_assoc}
use renga.Prelude.{
  ℕ, suc, ◌+◌, ◌/◌, ◌%◌, ◌^◌, ◌<◌, ◌≤◌, ◌≡◌, ap, ◌∙◌, [], ◌++◌, length, ok, true, take-append-drop,
  take, drop, zero, ◌-◌, Result, ◌∷◌, length-append, arith, ◌==◌,
}
use renga.Bytes.{Bytes}
use renga.Smbios.Text.{valid_utf8}
use renga.Osquery.Words.{ThriftError, to_be, write_bytes, i32_mod, max_reply_bytes}
use renga.Osquery.Words.RoundTrip.{read_int-to_be, read_bytes-write_bytes}
use renga.Osquery.Thrift.{
  Fields, Value, struct, Header, write_message, write_struct, write_value, read_message,
  read_header_body, read_value, max_levels,
}
use renga.Osquery.Thrift.Shape.{depth, encodable}
use renga.Osquery.Thrift.RoundTrip.{value_back}

header_back :
    (h : Header) (body : Fields) (rest : Bytes)
    → h.kind < 256
    → valid_utf8 (length h.name) h.name ≡ true
    → length h.name ≤ max_reply_bytes
    → h.seqid < 256 ^ 4
    → encodable (struct body) ≡ true
    → depth (struct body) ≤ max_levels
    → read_header_body (write_message h body ++ rest) ≡ (ok (h, struct body), rest)
unfolding read_header_body write_message write_value
header_back h body rest hk utf8 hn hs e d =
    let word : ℕ = 0x80010000 + h.kind in
    let after_name : Bytes = to_be 4 h.seqid ++ (write_struct body ++ rest) in
    let body_read : read_value max_levels 12 (write_struct body ++ rest)
        ≡ (ok (struct body), rest) =
      value_back (struct body) max_levels rest e d in
    let version : (word / 65536 == 0x8001) ≡ true = ground arith in
    let kind : word % 256 ≡ h.kind = omega arith in
    rw (
      append_assoc (to_be 4 word) (write_bytes h.name ++ (to_be 4 h.seqid ++ write_struct body))
          rest,
      append_assoc (write_bytes h.name) (to_be 4 h.seqid ++ write_struct body) rest,
      append_assoc (to_be 4 h.seqid) (write_struct body) rest,
      read_int-to_be 4 word (write_bytes h.name ++ after_name) (omega arith),
      version,
      read_bytes-write_bytes h.name after_name hn,
      utf8,
      read_int-to_be 4 h.seqid (write_struct body ++ rest) hs,
      body_read,
      kind,
    )

name_short :
    (h : Header) (body : Fields)
    → length (write_message h body) ≤ max_reply_bytes
    → length h.name ≤ max_reply_bytes
unfolding write_message write_bytes
name_short h body short =
    let tail = to_be 4 h.seqid ++ write_struct body in
    let size = to_be 4 (length h.name % i32_mod) in
    omega (
      arith,
      length-append (to_be 4 (0x80010000 + h.kind)) ((size ++ h.name) ++ tail),
      length-append (size ++ h.name) tail,
      length-append size h.name,
    )

take-append-more :
    (n : ℕ) (xs ys : Bytes) → length xs ≤ n → take n (xs ++ ys) ≡ xs ++ take (n - length xs) ys
take-append-more n [] ys h = ap (λ k. take k ys) (omega arith)
take-append-more zero (x ∷ xs) ys h = absurd (omega arith)
take-append-more (suc n) (x ∷ xs) ys h =
    ap (λ t. x ∷ t)
      (take-append-more n xs ys (omega arith) ∙ ap (λ k. xs ++ take k ys) (omega arith))

drop-append-more :
    (n : ℕ) (xs ys : Bytes) → length xs ≤ n → drop n (xs ++ ys) ≡ drop (n - length xs) ys
drop-append-more n [] ys h = ap (λ k. drop k ys) (omega arith)
drop-append-more zero (x ∷ xs) ys h = absurd (omega arith)
drop-append-more (suc n) (x ∷ xs) ys h =
    drop-append-more n xs ys (omega arith) ∙ ap (λ k. drop k ys) (omega arith)

-- What a writer needs of a message, for it to be read back.
pub record Sendable (h : Header) (body : Fields) : Type 0 where
  pub kind : h.kind < 256
  pub name : valid_utf8 (length h.name) h.name ≡ true
  pub seqid : h.seqid < 256 ^ 4
  pub fields : encodable (struct body) ≡ true
  pub levels : depth (struct body) ≤ max_levels
  pub size : length (write_message h body) ≤ max_reply_bytes

-- A message is read back as it was written, header and body, and what follows it is left, if it is no
-- longer than a reply may be, nests at most as deep as a reply may, its name is UTF-8, its integers
-- are of their widths, and its containers hold what they declare, of at most 2 ^ 20 elements each.
pub read_message-write_message :
    (h : Header) (body : Fields) (rest : Bytes)
    → Sendable h body
    → read_message (write_message h body ++ rest) ≡ (ok (h, struct body), rest)
unfolding read_message
read_message-write_message h body rest w =
    let m : Bytes = write_message h body in
    let within : Bytes = take (max_reply_bytes - length m) rest in
    let whole : take max_reply_bytes (m ++ rest) ≡ m ++ within =
      take-append-more max_reply_bytes m rest w.size in
    let read : read_header_body (take max_reply_bytes (m ++ rest)) ≡ (ok (h, struct body), within) =
      ap read_header_body whole
      ∙ header_back h body within w.kind w.name (name_short h body w.size) w.seqid w.fields
          w.levels in
    ap
      (λ (p : Result (Header × Value) ThriftError × Bytes).
        (p.0, p.1 ++ drop max_reply_bytes (m ++ rest)))
      read
    ∙ ap (λ left. (ok (h, struct body), within ++ left))
        (drop-append-more max_reply_bytes m rest w.size)
    ∙ ap (λ left. (ok (h, struct body), left)) (take-append-drop (max_reply_bytes - length m) rest)
