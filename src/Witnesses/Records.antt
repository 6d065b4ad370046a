-- ===== src/Witnesses/Records.antt =====
-- A call that fails, one that is denied and one that the hub answers itself.
use mcp_switchboard.Prelude.{◌≡◌, refl, true, not, ◌&&◌, [], none, some, bytes, Text}
use mcp_switchboard.Registry.{ready}
use mcp_switchboard.Witnesses.Tree.{laptop, files}
use mcp_switchboard.Calls.Records.{Outside, Request, Dispatcher, failed}
use mcp_switchboard.Calls.{LocalRequest, call}
use mcp_switchboard.Calls.Audit.{Traced, call-Traced}

abbrev pub outside : Outside
outside = record {
  result_to_map = λ r. [];
  deadline_text = bytes "hub call deadline";
  stores = λ r. true;
  call_tool = λ tool arguments. failed (bytes "deadline exceeded") true;
  caller_live = true;
  duration = 120000;
}

abbrev request : Request
request = record {
  connection = none;
  channel = none;
  tool = bytes "read_file";
  exposed_name = bytes "laptop__files__read_file";
  arguments = none;
  source = bytes "mcp";
  agent_id = none;
  chat_id = none;
  run_id = none;
}

abbrev local_request : LocalRequest
local_request = record {
  label = [];
  server = bytes "switchboard";
  tool = bytes "spawn";
  exposed_name = bytes "switchboard.spawn";
  arguments = none;
  source = bytes "agent";
  agent_id = some (bytes "a1");
  chat_id = none;
  run_id = none;
}

abbrev pub dispatcher : Dispatcher
dispatcher = record { store = some []; metrics = none; loki = some []; bus = some [] }

abbrev id : Text
id = bytes "c7"

timed_out : (call outside id request laptop files dispatcher).1.error ≡ bytes "hub call deadline"
unfolding call
timed_out = refl

call-Traced_example :
    let (d, res) = call outside id request laptop files dispatcher in
    Traced outside dispatcher id (ready files && not res.is_error) d res
call-Traced_example = call-Traced outside id request laptop files dispatcher
