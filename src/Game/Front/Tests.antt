-- ===== src/Game/Front/Tests.antt =====
-- Requests at concrete inputs, with their envelope.
use future_was.Base.{
  String, str_eq, true, false, none, some, [], ◌∷◌, if◌then◌else◌, ◌==◌, ◌≡◌, ◌⊎◌, refl,
}
use future_was.Game.Items.{Table, LoadFaults, add_item}
use future_was.Game.Dispatch.{CommitFaults}
use future_was.Game.Front.{GameRequest, Gateway, dispatch_body}
use future_was.Game.Front.Admits.{IsHandled, IsRefused, front_decides}

abbrev quiet : CommitFaults
quiet = record {
  tx = record { begin_error = λ _. none; commit_error = λ _. none; carried_out = λ _. false };
  write_error = λ _. none;
  multi_error = none;
  multi_stored = true;
  delete_fails = false;
}

abbrev loads : LoadFaults
loads = record { get_fails = false; find_error = none; set_fails = false }

abbrev empty_table : Table
empty_table = record { rows = []; next = 1 }

abbrev request_of : String → GameRequest
request_of token = record {
  action = 3001;
  user_id = 7;
  client_version = "2.01.01";
  session_token = token;
  body = [];
}

abbrev gateway : String → Gateway
gateway token = record {
  read = some (some (request_of token));
  registry = λ n.
      if n == 3001
      then some (record { no_auth = false; handler = λ _. add_item loads 100 5 ∷ [] })
      else none;
  catalogs = λ cv. if str_eq cv "2.01.01" then some (λ _. some 3) else none;
  stored_token = λ n. some (if n == 7 then some "secret" else none);
  acquires = λ _. true;
}

right_token : (dispatch_body 2 quiet 50 (gateway "secret") empty_table none).code ≡ 200
unfolding dispatch_body future_was.Game.Dispatch.dispatch
right_token = refl

wrong_token : (dispatch_body 2 quiet 50 (gateway "guess") empty_table none).code ≡ 401
unfolding dispatch_body future_was.Game.Dispatch.dispatch
wrong_token = refl

busy_user :
    (dispatch_body 2 quiet 50
      (record (gateway "secret") { acquires = λ _. false })
      empty_table
      none).code
    ≡ 429
unfolding dispatch_body future_was.Game.Dispatch.dispatch
busy_user = refl

front_decides_example :
    let r = dispatch_body 2 quiet 50 (gateway "secret") empty_table none in
    IsHandled 2 quiet 50 (gateway "secret") empty_table none r
    ⊎ IsRefused 2 quiet 50 (gateway "secret") empty_table none r
front_decides_example = front_decides 2 quiet 50 (gateway "secret") empty_table none
