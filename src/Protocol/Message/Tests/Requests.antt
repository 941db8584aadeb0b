-- ===== src/Protocol/Message/Tests/Requests.antt =====
-- crates/dustnet-core/src/protocol/message.rs: the laws of a client's messages at concrete ones.
use dustnet.Base.{◌*◌, ◌≤◌, none, some, ◌≡◌, refl, arith}
use dustnet.Base.Text.{codes, len}
use dustnet.Protocol.Error.{ok, ◌>>=◌}
use dustnet.Protocol.Message.Get
use dustnet.Protocol.Message.Get.{GetMessage, GetHeap, get_body, validate_get_body}
use dustnet.Protocol.Message.Get.Checked as GetChecked
use dustnet.Protocol.Message.Get.Checked.{validate_get_body-parse}
use dustnet.Protocol.Message.Get.RoundTrip.{parse-serialize_get}
use dustnet.Protocol.Message.Input
use dustnet.Protocol.Message.Input.{InputMessage, InputHeap, input_body, validate_input_body}
use dustnet.Protocol.Message.Input.Checked as InputChecked
use dustnet.Protocol.Message.Input.Checked.{is_some, validate_input_body-parse}
use dustnet.Protocol.Message.Input.RoundTrip.{IsInput, parse-serialize_input}
use dustnet.Protocol.Message.Subscribe
use dustnet.Protocol.Message.Subscribe.{
  SubscribeMessage, SubscribeHeap, delta, subscribe_body, validate_subscribe_body,
}
use dustnet.Protocol.Message.Subscribe.Checked as SubscribeChecked
use dustnet.Protocol.Message.Subscribe.Checked.{validate_subscribe_body-parse}
use dustnet.Protocol.Message.Subscribe.RoundTrip.{parse-serialize_subscribe}
use dustnet.Protocol.Message.Tests.{granted}

abbrev input_heap : InputHeap
input_heap = record {
  path = granted;
  form_data = granted;
  session = granted;
  body = granted;
  diagnostics = granted;
}

input-Generous : InputChecked.Generous input_heap
input-Generous = record {
  path = λ n. refl;
  form_data = λ n. refl;
  session = λ n. refl;
  body = λ n. refl;
}

abbrev login : InputMessage
login = record { path = codes "/login"; form_data = codes "user=a"; session = some (codes "t1") }

login-IsInput : IsInput login
login-IsInput = record {
  path = record { full = refl; visible = refl };
  form_data = refl;
  session = record { full = refl; visible = refl };
}

login-short : len (input_body login) ≤ 64 * 1024
unfolding input_body
login-short = omega arith

parse-serialize_input_example :
    (Input.serialize input_heap login >>= Input.parse input_heap) ≡ ok login
parse-serialize_input_example =
    parse-serialize_input input_heap login input-Generous login-IsInput login-short

validate_input_body-parse_example :
    validate_input_body input_heap (codes "INPUT /a\nForm: x\nForm: y\n") ≡ (
      Input.parse input_heap (codes "INPUT /a\nForm: x\nForm: y\n") >>= λ m. ok (is_some m.session))
validate_input_body-parse_example =
    validate_input_body-parse input_heap (codes "INPUT /a\nForm: x\nForm: y\n") input-Generous

abbrev get_heap : GetHeap
get_heap = record {
  path = granted;
  query = granted;
  referrer = granted;
  session = granted;
  body = granted;
  diagnostics = granted;
}

get-Generous : GetChecked.Generous get_heap
get-Generous = record {
  path = λ n. refl;
  query = λ n. refl;
  referrer = λ n. refl;
  session = λ n. refl;
  body = λ n. refl;
}

abbrev front : GetMessage
front = record {
  path = codes "/";
  query = some (codes "q=1");
  referrer = none;
  session = some (codes "t1");
}

front-short : len (get_body front) ≤ 16 * 1024
unfolding get_body
front-short = omega arith

parse-serialize_get_example : (Get.serialize get_heap front >>= Get.parse get_heap) ≡ ok front
parse-serialize_get_example =
    parse-serialize_get get_heap get-Generous front
      (record {
        path = record { full = refl; visible = refl };
        query = record { full = refl; visible = refl };
        referrer = tt;
        session = record { full = refl; visible = refl };
      })
      front-short

validate_get_body-parse_example :
    validate_get_body get_heap (codes "GET /\nSession: t\n")
    ≡ (Get.parse get_heap (codes "GET /\nSession: t\n") >>= λ m. ok (is_some m.session))
validate_get_body-parse_example =
    validate_get_body-parse get_heap (codes "GET /\nSession: t\n") get-Generous

abbrev subscribe_heap : SubscribeHeap
subscribe_heap = record {
  path = granted;
  region = granted;
  session = granted;
  body = granted;
  diagnostics = granted;
}

subscribe-Generous : SubscribeChecked.Generous subscribe_heap
subscribe-Generous = record {
  path = λ n. refl;
  region = λ n. refl;
  session = λ n. refl;
  diagnostics = λ n. refl;
}

abbrev feed : SubscribeMessage
feed = record {
  path = codes "/live";
  region = codes "feed";
  mode = delta;
  session = some (codes "t1");
}

feed-short : len (subscribe_body feed) ≤ 16 * 1024
unfolding subscribe_body
feed-short = omega arith

parse-serialize_subscribe_example :
    (Subscribe.serialize subscribe_heap feed >>= Subscribe.parse subscribe_heap) ≡ ok feed
parse-serialize_subscribe_example =
    parse-serialize_subscribe subscribe_heap subscribe-Generous feed (λ n. refl)
      (record {
        path = record { full = refl; visible = refl };
        region = refl;
        session = record { full = refl; visible = refl };
      })
      feed-short

validate_subscribe_body-parse_example :
    validate_subscribe_body subscribe_heap (codes "SUBSCRIBE /live\nMode: delta\nMode: delta\n") ≡ (
      Subscribe.parse subscribe_heap (codes "SUBSCRIBE /live\nMode: delta\nMode: delta\n") >>= λ m.
      ok (is_some m.session))
validate_subscribe_body-parse_example =
    validate_subscribe_body-parse subscribe_heap
      (codes "SUBSCRIBE /live\nMode: delta\nMode: delta\n") subscribe-Generous
