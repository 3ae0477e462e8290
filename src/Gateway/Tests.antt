-- ===== src/Gateway/Tests.antt =====
-- Responses of a gateway.
use ledger_core.Base.{◌≡◌, refl, ◌⊎◌, true, Option, some, pos, String}
use ledger_core.Errors.{payment_declined}
use ledger_core.Gateway.{
  Payment, payment_succeeded, HttpResponse, succeeded, conclusive, do_request, decode_payment,
}
use ledger_core.Gateway.Answers.{Says, Refuses, do_request_ok, do_request-conclusive}

abbrev answer : String → Option HttpResponse
answer status = some (record {
  status_code = 200;
  body = some (record {
    key = "";
    reference = "r";
    status = status;
    reason = "";
    amount_minor = pos 300;
    currency = "USD";
  });
})

abbrev payment : Payment
payment = record {
  key = "k";
  reference = "r";
  status = payment_succeeded;
  reason = "";
  amount_minor = pos 300;
  currency = "USD";
}

do_request_ok_example : (succeeded payment ≡ true) × Says "SUCCEEDED" (answer "SUCCEEDED")
unfolding do_request decode_payment
do_request_ok_example = do_request_ok (answer "SUCCEEDED") "k" payment refl

do_request-conclusive_example : Says "FAILED" (answer "FAILED") ⊎ Refuses (answer "FAILED")
unfolding do_request decode_payment conclusive
do_request-conclusive_example =
    do_request-conclusive (answer "FAILED") "k" payment_declined refl refl
