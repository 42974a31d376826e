-- ===== src/Fcm/PushCrypto/Padding.antt =====
-- pushCrypto.decrypt (pkg/googlefindmy/fcm/push.go): the padding, and which payloads it returns.
use google_find_my_tools_go.Prelude.{ℕ, suc, ◌+◌, ◌≤◌, ◌<◌, ◌^◌, ◌≡◌, ap, ◌∙◌, arith, ltb-eq-false}
use google_find_my_tools_go.Prelude.{List, [], ◌++◌, length, drop, length-append, drop-append}
use google_find_my_tools_go.Prelude.{ok}
use google_find_my_tools_go.BigEndian.{put_uint16, uint16_of, uint16_of-put_uint16}
use google_find_my_tools_go.Fcm.PushCrypto.{strip_padding}

-- A padding of less than 64 KiB is taken off, whatever its bytes, and the message is what is left.
pub strip_padding-put_uint16 :
    (padding text : List ℕ)
    → length padding < 2 ^ 16
    → strip_padding (put_uint16 (length padding) ++ padding ++ text) ≡ ok text
unfolding strip_padding put_uint16
strip_padding-put_uint16 padding text small =
    rw
      (
        read,
        ltb-eq-false (length (put_uint16 (length padding) ++ padding ++ text)) (2 + length padding)
            fits,
      )
      (ap ok (
        ap (λ n. drop n (put_uint16 (length padding) ++ padding ++ text)) two_more
        ∙ drop-append padding text))
  where
    read : uint16_of (put_uint16 (length padding)) ≡ length padding
    read = uint16_of-put_uint16 (length padding) [] small

    fits : 2 + length padding ≤ suc (suc (length (padding ++ text)))
    fits = omega (arith, length-append padding text)

    two_more : 2 + length padding ≡ suc (suc (length padding))
    two_more = omega arith
