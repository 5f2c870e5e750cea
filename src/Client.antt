-- ===== src/Client.antt =====
-- client/client.c: the messages with a length that the terminal client reads from its socket, with
-- the function of server/server.c that sends them. What its menus write is left out.
pub mod Messages
