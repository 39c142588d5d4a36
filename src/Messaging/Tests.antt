-- ===== src/Messaging/Tests.antt =====
-- The theorems on the messages at small buses.
use khulnasoft_lsp.Base.{
  true, [], ◌∷◌, some, false, ◌≡◌, refl, ℕ, List, Option, ◌++◌, text_key, number_key, String, none,
  contains, add, if◌then◌else◌,
}
use khulnasoft_lsp.Base.JsMap
use khulnasoft_lsp.Messaging.Bus
use khulnasoft_lsp.Messaging.Bus.{MessageBus}
use khulnasoft_lsp.Messaging.Registry.{Outcome, returned}
use khulnasoft_lsp.Messaging.Controller
use khulnasoft_lsp.Messaging.Controller.{WebviewController}
use khulnasoft_lsp.Messaging.Controller.Handlers.{AllCalled, run-new-AllCalled}
use khulnasoft_lsp.Messaging.Controller.Leaving.{run-dispose_callbacks}
use khulnasoft_lsp.Messaging.Mediator
use khulnasoft_lsp.Messaging.Mediator.Managing.{is_live, passed_on, run-new-passed_on}
use khulnasoft_lsp.Messaging.Instance
use khulnasoft_lsp.Messaging.Instance.Registered.{
  is_same, answers, tells, served_by, run-new-served,
}
use khulnasoft_lsp.Messaging.Instance.{
  Address, Response, success, Promised, pending, resolved, rejected, InstanceBus, send_request,
  time_out, receive_response, Event, timed_out, request_sent, disposed, step,
}
use khulnasoft_lsp.Messaging.Instance.Requests.{
  IsReachable, start, stepped, IsTimed, IsReachable-IsTimed, time_out-rejects,
}
use khulnasoft_lsp.Messaging.Instance.Settling.{times, settled_count, IsReachable-settled_count}

-- A bus of texts, with listeners that are texts.
abbrev empty : MessageBus String String String
empty = Bus.new

-- A handler that gives its argument back.
abbrev echo : String → Outcome String
echo text = returned text

abbrev same_text : String → String
same_text key = key

abbrev address : Address
address = record { webview_id = 1; webview_instance_id = 2 }

abbrev fresh : InstanceBus String
fresh = record {
  address = address;
  is_subscribed = true;
  notification_events = [];
  request_events = [];
  pending_responses = [];
  timers = [];
  promises = [];
  outbox = [];
  notified = [];
  settlements = [];
}

-- One request is on its way.
abbrev asked : InstanceBus String
asked = record {
  address = address;
  is_subscribed = true;
  notification_events = [];
  request_events = [];
  pending_responses = "r1" ∷ [];
  timers = "r1" ∷ [];
  promises = ("r1", pending) ∷ [];
  outbox = (address, Instance.plugin_request "r1" "getState" "") ∷ [];
  notified = [];
  settlements = [];
}

asked-IsReachable : IsReachable asked
unfolding Instance.new step send_request Instance.publish add contains JsMap.set JsMap.has JsMap.get
asked-IsReachable =
    stepped (Instance.new address) (request_sent "r1" "getState" "") refl (start address)

IsReachable-IsTimed_example : IsTimed asked "r1"
IsReachable-IsTimed_example = IsReachable-IsTimed asked "r1" asked-IsReachable

time_out-rejects_example :
    JsMap.get (time_out "r1" asked).promises "r1" ≡ some (rejected (some "Request timed out"))
unfolding JsMap.get
time_out-rejects_example = time_out-rejects asked "r1" "r1" asked-IsReachable refl

-- The request is answered, once more, and its time is up.
abbrev reply : Instance.Event String
reply = Instance.response_received address "r1" (Instance.success "state")

abbrev settled : InstanceBus String
settled = step (timed_out "r1") (step reply (step reply asked))

settled-IsReachable : IsReachable settled
settled-IsReachable =
    stepped (step reply (step reply asked)) (timed_out "r1") tt
      (stepped (step reply asked) reply tt (stepped asked reply tt asked-IsReachable))

IsReachable-settled_count_example :
    times "r1" settled.settlements ≡ settled_count (JsMap.get settled.promises "r1")
IsReachable-settled_count_example = IsReachable-settled_count settled "r1" settled-IsReachable

-- A handler 3 that gives itself as a disposable, and an instance 7 of the webview 1.
abbrev gives_itself : ℕ → ℕ → Option ℕ
gives_itself handler instance_id = some handler

abbrev connecting : List (Controller.Event String)
connecting = Controller.handler_added 3 ∷ Controller.connected 1 7 ∷ []

abbrev controller : WebviewController String
controller = Controller.run gives_itself connecting (Controller.new 1)

run-new-AllCalled_example : AllCalled controller.handlers controller.instance_infos
unfolding contains
run-new-AllCalled_example = run-new-AllCalled gives_itself connecting 1 (refl, tt)

run-dispose_callbacks_example :
    (Controller.run gives_itself
      (Controller.disconnected 1 7 ∷ [])
      (Controller.dispose controller)).disposed_callbacks
    ≡ controller.disposed_callbacks
run-dispose_callbacks_example =
    run-dispose_callbacks gives_itself (Controller.disconnected 1 7 ∷ []) controller

abbrev instance_address : Address
instance_address = record { webview_id = 1; webview_instance_id = 7 }

-- The mediator is disposed while the instance is there.
abbrev mediated : List (Mediator.Event String)
mediated = Mediator.instance_created instance_address ∷ Mediator.disposed ∷ []

run-new-passed_on_example :
    (Mediator.run
      (Mediator.plugin_message Mediator.notification instance_address "m" ∷ [])
      (Mediator.run mediated Mediator.new)).to_transport
    ≡ (Mediator.run mediated Mediator.new).to_transport
      ++ passed_on Mediator.notification instance_address "m" (is_live 7 false mediated)
run-new-passed_on_example = run-new-passed_on mediated Mediator.notification instance_address "m"

-- A handler of requests, and one of notifications that is released again
abbrev registering : List (Instance.Event String)
registering =
    Instance.request_handled "getState" (λ x. returned "state")
    ∷ Instance.notification_handled "opened" returned
    ∷ Instance.notification_released "opened"
    ∷ []

run-new-served_example :
    ((Instance.receive_request address "r2" "getState" ""
        (Instance.run registering (Instance.new address))).outbox
      ≡ (Instance.run registering (Instance.new address)).outbox
        ++ (if is_same address address
            then answers address "r2" "getState" "" (served_by "getState" none none registering).0
            else []))
    × ((Instance.receive_notification address "getState" ""
          (Instance.run registering (Instance.new address))).notified
        ≡ (Instance.run registering (Instance.new address)).notified
          ++ (if is_same address address
              then tells "getState" "" (served_by "getState" none none registering).1
              else []))
run-new-served_example = run-new-served registering address address "r2" "getState" ""
