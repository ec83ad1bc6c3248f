-- ===== src/Resp/Wire.antt =====
-- The replies of the RESP2 protocol as a server prints them, and the value each of them stands for:
-- the description against which the parser is checked.
use supply_chain_mangement_s.Common.{ℕ, suc, ℤ, some, [], ◌∷◌, ◌++◌, length}
use supply_chain_mangement_s.Bytes.{Bytes, crlf, digits, signed}
use supply_chain_mangement_s.Bytes.Numerals.{IsLine}
use supply_chain_mangement_s.Resp.{
  Value, text, reply_error, numeric, null, array, Values, nil, cons,
}

mutual
  pub data Reply : Type 0 where
    simple : Bytes → Reply
    error : Bytes → Reply
    integer : ℤ → Reply
    bulk : Bytes → Reply
    null_bulk : Reply
    null_array : Reply
    many : Replies → Reply

  pub data Replies : Type 0 where
    end : Replies
    item : Reply → Replies → Replies

abbrev pub count : Replies → ℕ
count end = 0
count (item r rs) = suc (count rs)

unfoldable mutual
  unfolding digits signed

  pub print : Reply → Bytes
  print (simple line) = b'+' ∷ (line ++ crlf [])
  print (error line) = b'-' ∷ (line ++ crlf [])
  print (integer n) = b':' ∷ (signed n ++ crlf [])
  print (bulk bytes) = b'$' ∷ (digits (length bytes) ++ crlf (bytes ++ crlf []))
  print null_bulk = b'$' ∷ b'-' ∷ b'1' ∷ crlf []
  print null_array = b'*' ∷ b'-' ∷ b'1' ∷ crlf []
  print (many rs) = b'*' ∷ (digits (count rs) ++ crlf (print_items rs))

  pub print_items : Replies → Bytes
  print_items end = []
  print_items (item r rs) = print r ++ print_items rs

unfoldable mutual
  pub value_of : Reply → Value
  value_of (simple line) = text line
  value_of (error line) = reply_error line
  value_of (integer n) = numeric (some n)
  value_of (bulk bytes) = text bytes
  value_of null_bulk = null
  value_of null_array = null
  value_of (many rs) = array (values_of rs)

  pub values_of : Replies → Values
  values_of end = nil
  values_of (item r rs) = cons (value_of r) (values_of rs)

-- What a server prints: no end of line inside a simple string or an error.
unfoldable mutual
  pub IsReply : Reply → Type 0
  IsReply (simple line) = IsLine line
  IsReply (error line) = IsLine line
  IsReply (many rs) = AreReplies rs
  IsReply _ = Unit

  pub AreReplies : Replies → Type 0
  AreReplies end = Unit
  AreReplies (item r rs) = IsReply r × AreReplies rs
