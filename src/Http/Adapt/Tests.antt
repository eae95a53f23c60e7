-- ===== src/Http/Adapt/Tests.antt =====
-- A typed handler on concrete requests.
use dfl.Base.{lookup, ℕ, ◌≡◌, refl, false, [], none, some}
use dfl.GoErrors.{ok}
use dfl.Http.Wire.{Request, World}
use dfl.Http.Parser.Schema.{empty, Std, other_value, default_request_parser}
use dfl.Http.Parser.Plan.{build_binder, new_binder}
use dfl.Http.Adapt.{RespType, replied, adapted}
use dfl.Http.Adapt.Laws.{IsServed, adapted-IsServed}

abbrev std : Std
std = record {
  quote = λ s. s;
  err_syntax = 20;
  err_range = 21;
  eof = 22;
  parse_float = λ w s. ok (other_value 0);
  unmarshal_text = λ name old s. (none, old);
  unmarshal = λ t old raw. (none, old);
  decode_object = λ body. (none, []);
}

-- A response that is created.
abbrev created : RespType ℕ
created = record {
  is_empty = false;
  pointer = false;
  status_coder = some (λ r. 201);
  encode = λ n. ok "7";
}

abbrev fresh : World
fresh = record { headers = []; status = none; sent_headers = []; body = ""; log = [] }

abbrev request : Request ℕ
request = record {
  path_value = λ key. "";
  query = λ key. "";
  header = λ key. "";
  body = "";
  remote_addr = "";
  user_agent = "";
  context = record { logger = none; client = none; extra = none };
}

created_status :
    (adapted std "Empty" empty [] created
      (λ ctx req. replied 7)
      default_request_parser
      []
      []
      request
      fresh).1.status
    ≡ some 201
unfolding adapted default_request_parser build_binder new_binder lookup
created_status = refl

adapted-IsServed_example : IsServed created fresh (
    adapted std "Empty" empty [] created
      (λ ctx req. replied 7)
      default_request_parser
      []
      []
      request
      fresh)
adapted-IsServed_example =
    adapted-IsServed std "Empty" empty [] created (λ ctx req. replied 7) default_request_parser []
      [] request fresh refl
