-- ===== src/Client.antt =====
-- libnpclient: the client library's parts that are modelled.
pub mod Pool
