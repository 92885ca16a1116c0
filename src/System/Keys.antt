-- ===== src/System/Keys.antt =====
-- The Redis keys of middleware/src/redis/keys.go and the Prometheus queries of
-- middleware/src/prometheus/queries.go.
use bitbox_base.Base.Text.{Text, text}

pub data BaseRedisKey : Type 0 where
  base_hostname tor_enabled middleware_onion bitcoind_listen base_version : BaseRedisKey
  bitcoind_version lightningd_version electrs_version middleware_password_set : BaseRedisKey
  middleware_auth base_setup_done base_sshd_password_login bitcoind_ibd_clearnet : BaseRedisKey

unfoldable pub key_text : BaseRedisKey → Text
unfolding text
key_text base_hostname = text "base:hostname"
key_text tor_enabled = text "tor:base:enabled"
key_text middleware_onion = text "tor:bbbmiddleware:onion"
key_text bitcoind_listen = text "bitcoind:listen"
key_text base_version = text "base:version"
key_text bitcoind_version = text "bitcoind:version"
key_text lightningd_version = text "lightningd:version"
key_text electrs_version = text "electrs:version"
key_text middleware_password_set = text "middleware:passwordSetup"
key_text middleware_auth = text "middleware:auth"
key_text base_setup_done = text "base:setup"
key_text base_sshd_password_login = text "base:sshd:passwordlogin"
key_text bitcoind_ibd_clearnet = text "bitcoind:ibd-clearnet"

pub data BasePrometheusQuery : Type 0 where
  bitcoin_verification_progress bitcoin_block_count bitcoin_header_count : BasePrometheusQuery
  bitcoin_peers bitcoin_ibd base_system_info base_free_diskspace : BasePrometheusQuery
  base_total_diskspace lightning_blocks electrs_blocks : BasePrometheusQuery
  lightning_active_channels : BasePrometheusQuery

unfoldable pub query_text : BasePrometheusQuery → Text
unfolding text
query_text bitcoin_verification_progress = text "bitcoin_verification_progress"
query_text bitcoin_block_count = text "bitcoin_blocks"
query_text bitcoin_header_count = text "bitcoin_headers"
query_text bitcoin_peers = text "bitcoin_peers"
query_text bitcoin_ibd = text "bitcoin_ibd"
query_text base_system_info = text "base_system_info"
query_text base_free_diskspace =
    text "node_filesystem_free_bytes{fstype=\"ext4\", mountpoint=\"/mnt/ssd\"}"
query_text base_total_diskspace =
    text "node_filesystem_size_bytes{fstype=\"ext4\", mountpoint=\"/mnt/ssd\"}"
query_text lightning_blocks = text "lightning_node_blockheight"
query_text electrs_blocks = text "electrs_index_height"
query_text lightning_active_channels = text "sum(lightning_peer_channels) or vector(0)"
