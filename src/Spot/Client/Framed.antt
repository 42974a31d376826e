-- ===== src/Spot/Client/Framed.antt =====
-- What a request to the Spot API returns, in terms of the messages in the frames.
use google_find_my_tools_go.Prelude.{
  ℕ, ◌+◌, ◌≤◌, ◌<◌, ◌^◌, ◌≡◌, refl, sym, ap, ◌∙◌, List, ◌++◌, some, length, ok,
}
use google_find_my_tools_go.Grpc.{wrap, unwrap, max_frame_size}
use google_find_my_tools_go.Grpc.RoundTrip.{unwrap-wrap}
use google_find_my_tools_go.Http.{Network, do_request}
use google_find_my_tools_go.Spot.Client.{Client, spot_request, spot_answer, send, request}

module _ {ℓ} {S : Type ℓ} (net : Network S) (c : Client S) where
  -- If the token can be got, and the server answers the request, in which a message of at most
  -- 16 MiB stands in its frame, with status 200 and a frame of a payload of at most 16 MiB, with
  -- anything behind it, request returns that payload.
  pub request-framed :
      (s s1 s2 : S) (scope token message framed payload answer trailing : List ℕ)
      → c.token s ≡ (s1, ok token)
      → wrap message ≡ some framed
      → wrap payload ≡ some answer
      → length payload ≤ max_frame_size
      → length payload + length trailing < 2 ^ 32
      → do_request net s1 (spot_request c.base_url token scope framed)
        ≡ (s2, ok (record { status = 200; body = ok (answer ++ trailing) }))
      → request net c scope (ok message) s ≡ (s2, ok payload)
  unfolding request send spot_answer
  request-framed s s1 s2 scope token message framed payload answer trailing got sent answered small
        room exchanged =
      let (frame, wrapped, unwrapped) = unwrap-wrap payload trailing small room in
      let same : frame ≡ answer = cc (sym wrapped ∙ answered) in
      let read : unwrap (answer ++ trailing) ≡ ok payload =
        ap (λ f. unwrap (f ++ trailing)) (sym same) ∙ unwrapped in
      rw (got, sent, exchanged, read) refl
