-- ===== src/Validator/Tests.antt =====
-- The validator on a concrete server.
use calbridge.Common.{◌≡◌, refl, Text, codes, some, true, ◌==◌, arith}
use calbridge.Validator.{
  connection_failed, Net, is_blank, check_parsed, follow, validate_url, checked, request,
  judge_caldav, validate_caldav_endpoint, test_connection,
}
use calbridge.Validator.Redirects.{test_connection-exhausted}
use calbridge.Validator.Endpoints.{IsCaldavEndpoint, validate_caldav_endpoint-IsCaldavEndpoint}

abbrev net : Net
net = record {
  parse = λ url. some (record { scheme = codes "https"; host = codes "cal.example.com" });
  can_request = λ url. true;
  answer = λ method url. record {
    redirects = 1;
    response = some (record { status_code = 204; dav = codes "1, calendar-access" });
  };
}

abbrev url : Text
url = codes "https://cal.example.com"

test_connection-exhausted_example : test_connection net url 3 ≡ (4, some connection_failed)
unfolding validate_url check_parsed is_blank ◌==◌
test_connection-exhausted_example =
    test_connection-exhausted net url 3 (omega arith) refl refl (omega arith)

validate_caldav_endpoint-IsCaldavEndpoint_example : IsCaldavEndpoint net url 2
unfolding validate_caldav_endpoint request follow judge_caldav checked validate_url check_parsed
    is_blank ◌==◌
validate_caldav_endpoint-IsCaldavEndpoint_example =
    validate_caldav_endpoint-IsCaldavEndpoint net url 2 refl
