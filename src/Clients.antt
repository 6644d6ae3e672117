-- ===== src/Clients.antt =====
-- obnamlib/fmt_ga/client_list.py: the clients of a repository.
pub mod ClientList
pub mod Names
pub mod Added
