-- ===== src/Gateway.antt =====
-- internal/gateway/gateway.go and client.go: the client of the payment gateway, whose answer may be
-- unknown. net/http, the JSON decoder and the gateway itself are a parameter: what came back for a
-- request, if anything did. Reading the time of creation and the text of an error body is left out.
pub mod Answers
pub mod Tests
use ledger_core.Base.{
  ℕ, ℤ, String, Bool, true, false, ◌||◌, Option, none, some, ◌==◌, str_eq, if◌then◌else◌,
}
use ledger_core.Errors.{
  Error, Result, ok, err, payment_declined, payment_not_found, gateway_unavailable, invalid_request,
}

pub data PaymentStatus : Type 0 where
  payment_succeeded payment_failed : PaymentStatus
  other_payment_status : String → PaymentStatus

pub record Payment : Type 0 where
  pub key : String
  pub reference : String
  pub status : PaymentStatus
  pub reason : String
  pub amount_minor : ℤ
  pub currency : String

-- `Payment.Succeeded`
unfoldable pub succeeded : Payment → Bool
succeeded p = elim p.status [
  | payment_succeeded ↦ true
  | payment_failed ↦ false
  | other_payment_status s ↦ false
]

pub record PaymentRequest : Type 0 where
  pub idempotency_key : String
  pub amount_minor : ℤ
  pub currency : String
  pub reference : String

-- The port of the saga. The payment that Go returns beside a decline is not read by anyone.
pub record Client : Type 0 where
  pub pay : PaymentRequest → Result Payment
  pub probe : String → Result Payment

-- `Conclusive`, of an answer: its error, or nil.
unfoldable pub conclusive : Option Error → Bool
conclusive none = true
conclusive (some payment_declined) = true
conclusive (some payment_not_found) = true
conclusive (some invalid_request) = true
conclusive (some _) = false

pub record PaymentResponse : Type 0 where
  pub key : String
  pub reference : String
  pub status : String
  pub reason : String
  pub amount_minor : ℤ
  pub currency : String

-- What http.Client.Do gives: a status code, and the body where it decodes.
pub record HttpResponse : Type 0 where
  pub status_code : ℕ
  pub body : Option PaymentResponse

pub data HttpRequest : Type 0 where
  post_payment : PaymentRequest → HttpRequest
  get_payment : String → HttpRequest

-- `Status(wire.Status)`
abbrev payment_status : String → PaymentStatus
payment_status s =
    if str_eq s "SUCCEEDED"
    then payment_succeeded
    else if str_eq s "FAILED"
    then payment_failed
    else other_payment_status s

unfoldable pub decode_payment : Option PaymentResponse → String → Result Payment
decode_payment none key = err gateway_unavailable
decode_payment (some wire) key =
    let payment : Payment = record {
      key = if str_eq wire.key "" then key else wire.key;
      reference = wire.reference;
      status = payment_status wire.status;
      reason = wire.reason;
      amount_minor = wire.amount_minor;
      currency = wire.currency;
    } in
    elim payment.status [
      | payment_succeeded ↦ ok payment
      | payment_failed ↦ err payment_declined
      | other_payment_status s ↦ err gateway_unavailable
    ]

-- `HTTPClient.do`, of what came back: none where the transport failed.
unfoldable pub do_request : Option HttpResponse → String → Result Payment
do_request none key = err gateway_unavailable
do_request (some resp) key =
    if (resp.status_code == 200) || (resp.status_code == 201)
    then decode_payment resp.body key
    else if resp.status_code == 404
    then err payment_not_found
    else if (resp.status_code == 400) || (resp.status_code == 422)
    then err invalid_request
    else err gateway_unavailable

-- `HTTPClient`, whose two methods differ in the request that they send.
unfoldable pub http_client : (HttpRequest → Option HttpResponse) → Client
http_client exchange = record {
  pay = λ req. do_request (exchange (post_payment req)) req.idempotency_key;
  probe = λ key. do_request (exchange (get_payment key)) key;
}
