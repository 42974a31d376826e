-- ===== src/Spot/Client/Tests.antt =====
-- A Spot client that asks a server which answers with one frame.
use google_find_my_tools_go.Prelude.{ℕ, ◌+◌, ◌≡◌, refl, [], ◌∷◌, none, ok, arith}
use google_find_my_tools_go.BigEndian.{put_uint32}
use google_find_my_tools_go.Bytes.{codes}
use google_find_my_tools_go.Grpc.{wrap}
use google_find_my_tools_go.Http.{Network, do_request}
use google_find_my_tools_go.Spot.Client.{Client, request, eid_info_scope}
use google_find_my_tools_go.Spot.Client.Framed.{request-framed}

abbrev answering : Network ℕ
answering = record {
  url_error = λ url. none;
  send =
      λ n r. (n + 1, ok (record { status = 200; body = ok (0 ∷ 0 ∷ 0 ∷ 0 ∷ 2 ∷ 8 ∷ 9 ∷ 7 ∷ []) }));
}

abbrev client : Client ℕ
client = record { token = λ n. (n, ok (codes "ya29")); base_url = [] }

request-framed_example :
    request answering client eid_info_scope (ok (1 ∷ [])) 0 ≡ (1, ok (8 ∷ 9 ∷ []))
unfolding wrap put_uint32 do_request
request-framed_example =
    request-framed answering client 0 0 1 eid_info_scope (codes "ya29") (1 ∷ [])
      (0 ∷ 0 ∷ 0 ∷ 0 ∷ 1 ∷ 1 ∷ []) (8 ∷ 9 ∷ []) (0 ∷ 0 ∷ 0 ∷ 0 ∷ 2 ∷ 8 ∷ 9 ∷ []) (7 ∷ []) refl refl
      refl (omega arith) (omega arith) refl
