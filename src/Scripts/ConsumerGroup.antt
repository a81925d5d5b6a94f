-- ===== src/Scripts/ConsumerGroup.antt =====
-- scripts/create_consumer_group.py
use leaf_flow_chat.Prelude.{String, Option, none, some}
use leaf_flow_chat.Workers.StreamLoop.{Creation, created, busygroup, response_error}

-- `create_group`: an error where it raises
unfoldable pub create_group : Creation → Option String
create_group created = none
create_group busygroup = none
create_group (response_error message) = some message
