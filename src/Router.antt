-- ===== src/Router.antt =====
-- task_and_router: the table of routes, and the tasks that answer HTTP requests.
pub mod Table
pub mod Order
pub mod Task
pub mod Answers
