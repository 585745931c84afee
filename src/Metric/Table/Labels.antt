-- ===== src/Metric/Table/Labels.antt =====
-- The label names of internal/semp/metricDesc.go.
use solace_prometheus_export.Prelude.{String, List, [], ◌∷◌}

-- nil
abbrev pub no_labels : List String
no_labels = []

abbrev pub labels_up : List String
labels_up = "error" ∷ "endpoint" ∷ []

abbrev pub labels_environment : List String
labels_environment = "sensor_name" ∷ []

abbrev pub labels_hardware_fc : List String
labels_hardware_fc = "channel_number" ∷ []

abbrev pub labels_hardware_lun : List String
labels_hardware_lun = "lun_number" ∷ []

abbrev pub labels_redundancy : List String
labels_redundancy = "mate_name" ∷ []

abbrev pub labels_redundancy_hw : List String
labels_redundancy_hw = "mate_name" ∷ []

abbrev pub labels_replication : List String
labels_replication = "mate_name" ∷ []

abbrev pub labels_vpn : List String
labels_vpn = "vpn_name" ∷ []

abbrev pub labels_client_info : List String
labels_client_info = "vpn_name" ∷ "client_name" ∷ "client_address" ∷ []

abbrev pub labels_client_profile : List String
labels_client_profile = "vpn_name" ∷ "client_profile" ∷ []

abbrev pub labels_client_slow_sub : List String
labels_client_slow_sub = "vpn_name" ∷ "client_name" ∷ "client_address" ∷ "client_username" ∷ []

abbrev pub labels_vpn_client : List String
labels_vpn_client = "vpn_name" ∷ "client_name" ∷ []

abbrev pub labels_vpn_client_user : List String
labels_vpn_client_user = "vpn_name" ∷ "client_name" ∷ "client_username" ∷ []

abbrev pub labels_vpn_client_detail : List String
labels_vpn_client_detail =
    "vpn_name" ∷ "client_name" ∷ "client_username" ∷ "client_profile" ∷ "acl_profile" ∷ []

abbrev pub labels_vpn_client_flow : List String
labels_vpn_client_flow =
    "vpn_name" ∷ "client_name" ∷ "client_username" ∷ "client_profile" ∷ "acl_profile" ∷ "flow_id"
    ∷ []

abbrev pub labels_vpn_client_endpoint_bind : List String
labels_vpn_client_endpoint_bind =
    "vpn_name" ∷ "client_name" ∷ "client_address" ∷ "client_id" ∷ "client_username"
    ∷ "original_client_username" ∷ "user" ∷ "description" ∷ "software_version" ∷ "platform"
    ∷ "bind_type" ∷ "bind_name" ∷ "bind_target" ∷ []

abbrev pub labels_vpn_queue : List String
labels_vpn_queue = "vpn_name" ∷ "queue_name" ∷ []

abbrev pub labels_vpn_topic_endpoint : List String
labels_vpn_topic_endpoint = "vpn_name" ∷ "topic_endpoint_name" ∷ []

abbrev pub labels_cluster_link : List String
labels_cluster_link = "cluster" ∷ "node_name" ∷ "remote_cluster" ∷ "remote_node_name" ∷ []

abbrev pub labels_bridge : List String
labels_bridge = "vpn_name" ∷ "bridge_name" ∷ []

abbrev pub labels_bridge_remote : List String
labels_bridge_remote = "vpn_name" ∷ "bridge_name" ∷ "remote_vpn_name" ∷ "remote_router" ∷ []

abbrev pub labels_bridge_detail : List String
labels_bridge_detail =
    "vpn_name" ∷ "bridge_name" ∷ "connected_remote_vpn_name" ∷ "connected_remote_router"
    ∷ "local_queue_name" ∷ []

abbrev pub labels_bridge_detail_auth : List String
labels_bridge_detail_auth =
    "vpn_name" ∷ "bridge_name" ∷ "connected_remote_vpn_name" ∷ "connected_remote_router"
    ∷ "local_queue_name" ∷ "client_username" ∷ "certificate_file" ∷ []

abbrev pub labels_bridge_detail_remote : List String
labels_bridge_detail_remote =
    "vpn_name" ∷ "bridge_name" ∷ "connected_remote_vpn_name" ∷ "connected_remote_router"
    ∷ "local_queue_name" ∷ "remote_vpn_name" ∷ "remote_router" ∷ "compressed" ∷ "ssl"
    ∷ "remote_queue_name" ∷ []

abbrev pub labels_bridge_stats : List String
labels_bridge_stats = "vpn_name" ∷ "bridge_name" ∷ "remote_router_name" ∷ "remote_vpn_name" ∷ []

abbrev pub labels_bridge_client_cert : List String
labels_bridge_client_cert =
    "vpn_name" ∷ "bridge_name" ∷ "connected_remote_router" ∷ "common_name" ∷ []

abbrev pub labels_config_sync_table : List String
labels_config_sync_table = "table_name" ∷ []

abbrev pub labels_storage_element : List String
labels_storage_element = "path" ∷ "device_name" ∷ "element_name" ∷ []

abbrev pub labels_disk : List String
labels_disk = "path" ∷ "device_name" ∷ []

abbrev pub labels_interface : List String
labels_interface = "interface_name" ∷ []

abbrev pub labels_interface_hw : List String
labels_interface_hw = "interface_name" ∷ []

abbrev pub labels_memory : List String
labels_memory = "memory_type" ∷ []

abbrev pub labels_raid : List String
labels_raid = "disk_number" ∷ "device_model" ∷ []

abbrev pub labels_clock_pro : List String
labels_clock_pro = "clock_protocol" ∷ []

abbrev pub labels_clock_ntp_addr : List String
labels_clock_ntp_addr = "clock_ntp_addr" ∷ []

abbrev pub labels_rest_consumer : List String
labels_rest_consumer = "vpn_name" ∷ "rdp_name" ∷ "rest_consumer_name" ∷ []

abbrev pub labels_rdp_info : List String
labels_rdp_info = "vpn_name" ∷ "rdp_name" ∷ []

abbrev pub labels_rdp_stats : List String
labels_rdp_stats = "vpn_name" ∷ "rdp_name" ∷ []

abbrev pub labels_spool : List String
labels_spool = "partition" ∷ []

abbrev pub labels_mqtt_session : List String
labels_mqtt_session = "vpn_name" ∷ "client_id" ∷ "owner" ∷ []

abbrev pub labels_mqtt_session_info : List String
labels_mqtt_session_info = "vpn_name" ∷ "client_id" ∷ "owner" ∷ "clean" ∷ "durable" ∷ "enabled" ∷ []
