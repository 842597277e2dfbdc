-- ===== src/Supervisor.antt =====
-- supervisor.py: the reason of a close frame.
pub mod Heartbeat
pub mod Connection
pub mod Closing
pub mod Loop
use phoenix_channels_python.Base.{
  ℕ, ◌≡◌, refl, inl, inr, arith, leb, leb→le, if◌then◌else◌, length, take, take-length, sym, Result,
  ok, ◌>>=◌, >>=-eq-ok, Bool-cases,
}
use phoenix_channels_python.Text.{Text, Bytes}
use phoenix_channels_python.Text.Utf8
use phoenix_channels_python.Text.Utf8.{decode_ignore}
use phoenix_channels_python.Text.Utf8.Truncate.{Cut, decode_ignore-Cut}

abbrev pub max_close_reason_bytes : ℕ
max_close_reason_bytes = 123

shortened : Text → Bytes → Text
shortened reason encoded =
    if leb (length encoded) max_close_reason_bytes
    then reason
    else decode_ignore (take max_close_reason_bytes encoded)

-- `_truncate_close_reason`
unfoldable pub truncate_close_reason : Text → Result Text
unfolding shortened
truncate_close_reason reason = do encoded ← Utf8.encode reason; ok (shortened reason encoded)

shortened-Cut :
    (reason : Text) (encoded : Bytes)
    → Utf8.encode reason ≡ ok encoded
    → Cut reason max_close_reason_bytes (shortened reason encoded)
unfolding shortened decode_ignore
shortened-Cut reason encoded e = elim (Bool-cases (leb (length encoded) max_close_reason_bytes)) [
  | inl short ↦ rw short (record {
    kept = length reason;
    bytes = encoded;
    prefix = sym (take-length reason);
    encoded = e;
    fits = leb→le (length encoded) max_close_reason_bytes short;
    tight = inl refl;
  })
  | inr long ↦ rw long (decode_ignore-Cut reason encoded max_close_reason_bytes e)
]

-- A reason that is sent is a prefix of the one given, its encoding fits in a close frame, and it is
-- the whole of the reason or leaves fewer than four bytes of the frame unused.
pub truncate_close_reason-Cut :
    (reason : Text) {sent : Text}
    → truncate_close_reason reason ≡ ok sent
    → Cut reason max_close_reason_bytes sent
unfolding truncate_close_reason
truncate_close_reason-Cut reason {sent} h =
    let (encoded, e, s) =
      >>=-eq-ok (Utf8.encode reason) (λ b. ok (shortened reason b)) {b = sent} h in
    let q : sent ≡ shortened reason encoded = ground arith in rw q (shortened-Cut reason encoded e)
