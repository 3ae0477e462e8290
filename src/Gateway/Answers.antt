-- ===== src/Gateway/Answers.antt =====
-- What the client concludes from an HTTP response, and what it does not.
use ledger_core.Base.{
  ◌≡◌, refl, String, true, ◌||◌, Option, none, some, ◌==◌, str_eq, arith, Bool-cases, inl, inr, ◌⊎◌,
}
use ledger_core.Errors.{Error, ok, err}
use ledger_core.Gateway.{
  Payment, PaymentResponse, HttpResponse, succeeded, conclusive, decode_payment, do_request,
}

-- A 200 or a 201 whose body decodes to this status.
pub record Says (status : String) (resp : Option HttpResponse) : Type 0 where
  pub response : HttpResponse
  pub came : resp ≡ some response
  pub code : ((response.status_code == 200) || (response.status_code == 201)) ≡ true
  pub wire : PaymentResponse
  pub decoded : response.body ≡ some wire
  pub status_is : str_eq wire.status status ≡ true

-- A 400, a 404 or a 422.
pub record Refuses (resp : Option HttpResponse) : Type 0 where
  pub response : HttpResponse
  pub came : resp ≡ some response
  pub code :
      ((response.status_code == 400)
        || ((response.status_code == 404) || (response.status_code == 422)))
      ≡ true

decode_payment-ok :
    (body : Option PaymentResponse) (key : String) {p : Payment}
    → decode_payment body key ≡ ok p
    → (succeeded p ≡ true)
      × ((wire : PaymentResponse) × (body ≡ some wire) × (str_eq wire.status "SUCCEEDED" ≡ true))
unfolding decode_payment succeeded
decode_payment-ok none key h = absurd (ground arith)
decode_payment-ok (some wire) key h = elim (Bool-cases (str_eq wire.status "SUCCEEDED")) [
  | inl s ↦ (ground arith, (wire, refl, s))
  | inr s ↦ elim (Bool-cases (str_eq wire.status "FAILED")) [
    | inl f ↦ absurd (ground arith)
    | inr f ↦ absurd (ground arith)
  ]
]

decode_payment-conclusive :
    (body : Option PaymentResponse) (key : String) {x : Error}
    → decode_payment body key ≡ err x
    → conclusive (some x) ≡ true
    → (wire : PaymentResponse) × (body ≡ some wire) × (str_eq wire.status "FAILED" ≡ true)
unfolding decode_payment conclusive
decode_payment-conclusive none key h c = absurd (ground arith)
decode_payment-conclusive (some wire) key h c = elim (Bool-cases (str_eq wire.status "SUCCEEDED")) [
  | inl s ↦ absurd (ground arith)
  | inr s ↦ elim (Bool-cases (str_eq wire.status "FAILED")) [
    | inl f ↦ (wire, refl, f)
    | inr f ↦ absurd (ground arith)
  ]
]

-- The client returns a payment without an error only where a response with 200 or 201 has a body
-- that says SUCCEEDED, and that payment is a success.
pub do_request_ok :
    (resp : Option HttpResponse) (key : String) (p : Payment)
    → do_request resp key ≡ ok p
    → (succeeded p ≡ true) × Says "SUCCEEDED" resp
unfolding do_request
do_request_ok none key p h = absurd (ground arith)
do_request_ok (some r) key p h =
    elim (Bool-cases ((r.status_code == 200) || (r.status_code == 201))) [
      | inl good ↦
          let (s, (wire, decoded, is)) = decode_payment-ok r.body key {p = p} (ground arith) in
          (
            s,
            record {
              response = r;
              came = refl;
              code = good;
              wire = wire;
              decoded = decoded;
              status_is = is;
            },
          )
      | inr bad ↦ elim (Bool-cases (r.status_code == 404)) [
        | inl a ↦ absurd (ground arith)
        | inr a ↦ elim (Bool-cases ((r.status_code == 400) || (r.status_code == 422))) [
          | inl b ↦ absurd (ground arith)
          | inr b ↦ absurd (ground arith)
        ]
      ]
    ]

-- The client reports an error that settles the question only where a response came: one that
-- refuses with 400, 404 or 422, or one with 200 or 201 whose body says FAILED. Lost answers and
-- every other status code leave it open.
pub do_request-conclusive :
    (resp : Option HttpResponse) (key : String) (x : Error)
    → do_request resp key ≡ err x
    → conclusive (some x) ≡ true
    → Says "FAILED" resp ⊎ Refuses resp
unfolding do_request conclusive
do_request-conclusive none key x h c = absurd (ground arith)
do_request-conclusive (some r) key x h c =
    elim (Bool-cases ((r.status_code == 200) || (r.status_code == 201))) [
      | inl good ↦
          let (wire, decoded, is) = decode_payment-conclusive r.body key {x = x} (ground arith) c in
          inl (record {
            response = r;
            came = refl;
            code = good;
            wire = wire;
            decoded = decoded;
            status_is = is;
          })
      | inr bad ↦ inr (record { response = r; came = refl; code = ground arith })
    ]
